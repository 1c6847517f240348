-- ===== src/FileLoader/Cache.antt =====
-- The cached reading of a file in source/fileloader.cpp: readByte, safeSeek and safeTell with m_use_cache
-- set, getCacheBlock and loadCacheBlock. A seek in the file itself does not fail.
use evolution078ots.Prelude.{
  ℕ, zero, suc, ◌+◌, ◌-◌, ◌*◌, ◌/◌, min, max, Bool, true, false, Option, none, some, List, [], ◌∷◌,
  length, take, drop, get_elem?, ltb, leb, ◌==◌, if◌then◌else◌, ◌&&◌,
}
use evolution078ots.Prelude.Bits.{bit_and}
pub mod Blocks
pub mod Offsets
pub mod Lookup
pub mod Seeking
pub mod Reading
mod Examples

pub record Block : Type 0 where
  pub loaded : Bool
  pub base : ℕ
  pub bytes : List ℕ

-- m_cached_data, m_cache_index and m_cache_offset; NO_VALID_CACHE is `none`.
pub record Cache : Type 0 where
  pub blocks : List Block
  pub index : Option ℕ
  pub offset : ℕ

-- What the constructor sets, with CACHE_BLOCKS blocks; m_cache_offset is not read before it is set.
abbrev pub empty_block : Block
empty_block = record { loaded = false; base = 0; bytes = [] }

unfoldable pub open_cache : Cache
open_cache = record {
  blocks = empty_block ∷ empty_block ∷ empty_block ∷ [];
  index = none;
  offset = 0xFFFFFFFF;
}

-- m_cache_size for a file of `file_size` bytes.
abbrev pub cache_mask : ℕ
cache_mask = 0x1FFF

unfoldable pub cache_size_for : ℕ → ℕ
unfolding bit_and
cache_size_for file_size =
    let size = min 32768 (max (file_size / 20) 8192) in size - bit_and 64 size cache_mask

-- `pos & ~(m_cache_size - 1)`.
unfoldable pub base_pos : ℕ → ℕ → ℕ
unfolding bit_and
base_pos cache_size pos = pos - bit_and 64 pos (cache_size - 1)

-- The loops over the blocks, whose first index is `i`.
unfoldable pub find_block : ℕ → ℕ → List Block → Option ℕ
find_block base i [] = none
find_block base i (b ∷ bs) =
    let rest = find_block base (i + 1) bs in if b.loaded && (b.base == base) then some i else rest

unfoldable pub free_block : ℕ → List Block → Option ℕ
free_block i [] = none
free_block i (b ∷ bs) = let rest = free_block (i + 1) bs in if b.loaded then rest else some i

abbrev pub distance : ℕ → ℕ → ℕ
distance a b = (a - b) + (b - a)

unfoldable pub far_block : ℕ → ℕ → ℕ → List Block → ℕ
far_block cache_size base i [] = 0
far_block cache_size base i (b ∷ bs) =
    let rest = far_block cache_size base (i + 1) bs in
    if ltb (2 * cache_size) (distance b.base base) then i else rest

-- The block that is loaded next.
unfoldable pub loading_block : ℕ → ℕ → List Block → ℕ
unfolding free_block far_block
loading_block cache_size base bs = elim (free_block 0 bs) [
  | some i ↦ i
  | none ↦ far_block cache_size base 0 bs
]

unfoldable pub set_block : ℕ → (Block → Block) → List Block → List Block
set_block i f [] = []
set_block zero f (b ∷ bs) = f b ∷ bs
set_block (suc i) f (b ∷ bs) = b ∷ set_block i f bs

abbrev pub loaded_data : ℕ → List ℕ → ℕ → List ℕ
loaded_data cache_size file base = take cache_size (drop base file)

-- The block that was loaded, `none` for -1, and the blocks.
unfoldable pub load_cache_block : ℕ → List ℕ → ℕ → List Block → Option ℕ × List Block
unfolding base_pos loading_block set_block
load_cache_block cache_size file pos bs =
    let base = base_pos cache_size pos in
    let i = loading_block cache_size base bs in
    let bytes = loaded_data cache_size file base in
    if ltb (length bytes) (pos - base)
    then (none, set_block i (λ b. record b { base = base; bytes = bytes }) bs)
    else (some i, set_block i (λ b. record { loaded = true; base = base; bytes = bytes }) bs)

unfoldable pub get_cache_block : ℕ → List ℕ → ℕ → List Block → Option ℕ × List Block
unfolding base_pos find_block load_cache_block
get_cache_block cache_size file pos bs = elim (find_block (base_pos cache_size pos) 0 bs) [
  | some i ↦ (some i, bs)
  | none ↦ load_cache_block cache_size file pos bs
]

-- The byte of a block at an offset, if it has one, and the offset behind it.
abbrev pub byte_at : List Block → ℕ → Block → ℕ → Option ℕ × Cache
byte_at bs i b offset =
    if leb (length b.bytes) offset
    then (none, record { blocks = bs; index = some i; offset = offset })
    else (get_elem? b.bytes offset, record { blocks = bs; index = some i; offset = offset + 1 })

-- The block for a position, and the cache there.
unfoldable pub seek_block : ℕ → List ℕ → ℕ → Cache → Option (ℕ × Block) × Cache
unfolding get_cache_block
seek_block cache_size file pos c =
    let (found, bs) = get_cache_block cache_size file pos c.blocks in
    elim found [
      | none ↦ (none, record c { blocks = bs })
      | some i ↦ elim (get_elem? bs i) [
        | none ↦ (none, record c { blocks = bs })
        | some b ↦ (some (i, b), record { blocks = bs; index = some i; offset = pos - b.base })
      ]
    ]

unfoldable pub read_byte : ℕ → List ℕ → Cache → Option ℕ × Cache
unfolding seek_block
read_byte cache_size file c = elim c.index [
  | none ↦ (none, c)
  | some i ↦ elim (get_elem? c.blocks i) [
    | none ↦ (none, c)
    | some b ↦
        if ltb c.offset (length b.bytes)
        then byte_at c.blocks i b c.offset
        else let pos = c.offset + b.base in
          let (found, c') = seek_block cache_size file pos c in
          elim found [ none ↦ (none, c') | some (j, b') ↦ byte_at c'.blocks j b' c'.offset ]
  ]
]

-- safeTell; the position is that of the byte read last.
unfoldable pub safe_tell : Cache → Option ℕ
safe_tell c = elim c.index [
  | none ↦ none
  | some i ↦ elim (get_elem? c.blocks i) [ none ↦ none | some b ↦ some (b.base + c.offset - 1) ]
]

-- safeSeek. If the block cannot be loaded, -1 is not NO_VALID_CACHE where unsigned long has 64 bits, and
-- there is no defined behaviour: `none`.
unfoldable pub safe_seek : ℕ → List ℕ → ℕ → Cache → Option Cache
unfolding seek_block
safe_seek cache_size file pos c =
    let (found, c') = seek_block cache_size file pos c in
    elim found [ none ↦ none | some _ ↦ some c' ]

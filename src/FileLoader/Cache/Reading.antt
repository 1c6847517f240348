-- ===== src/FileLoader/Cache/Reading.antt =====
-- readByte through the cache gives the bytes of the file, whichever blocks are loaded.
use evolution078ots.Prelude.{
  some_inj, ℕ, zero, suc, ◌+◌, ◌≤◌, ◌<◌, Bool, true, false, Option, none, some, List, [], ◌∷◌,
  length, take, drop, get_elem?, ltb, leb, if◌then◌else◌, ◌≡◌, refl, sym, ap, subst, ◌∙◌, arith,
  get_elem?-beyond,
}
use evolution078ots.FileLoader.Cache.{
  Block, Cache, loaded_data, byte_at, seek_block, read_byte, safe_seek, cache_size_for,
}
use evolution078ots.FileLoader.Cache.Blocks.{
  cache_size_for-positive, get_elem?-loaded_data, length-loaded_data, AllTrue,
}
use evolution078ots.FileLoader.Cache.Offsets.{short_le, moved, moved_back, inside}
use evolution078ots.FileLoader.Cache.Seeking.{IsAt, IsSought, seek_block_lem, safe_seek_lem}

take-drop-none : (n pos : ℕ) (l : List ℕ) → get_elem? l pos ≡ none → take n (drop pos l) ≡ []
take-drop-none zero zero [] h = refl
take-drop-none (suc n) zero [] h = refl
take-drop-none n zero (y ∷ l) h = absurd cc
take-drop-none zero (suc pos) [] h = refl
take-drop-none (suc n) (suc pos) [] h = refl
take-drop-none n (suc pos) (y ∷ l) h = take-drop-none n pos l h

drop_to : (n a b : ℕ) (l : List ℕ) → a ≡ b → take n (drop a l) ≡ take n (drop b l)
drop_to n a b l e = ap (λ k. take n (drop k l)) e

drop-suc :
    (n pos y : ℕ) (l : List ℕ) → take n (drop (pos + 1) l) ≡ take n (drop (suc pos + 1) (y ∷ l))
drop-suc n pos y l = drop_to n (suc (pos + 1)) (suc pos + 1) (y ∷ l) (omega arith)

take-drop-some :
    (n pos x : ℕ) (l : List ℕ)
    → get_elem? l pos ≡ some x
    → take (suc n) (drop pos l) ≡ x ∷ take n (drop (pos + 1) l)
take-drop-some n zero x [] h = absurd cc
take-drop-some n zero x (y ∷ l) h = ap (λ z. z ∷ take n l) (some_inj y x h)
take-drop-some n (suc pos) x [] h = absurd cc
take-drop-some n (suc pos) x (y ∷ l) h =
    take-drop-some n pos x l h ∙ ap (λ z. x ∷ z) (drop-suc n pos y l)

module _ (cache_size : ℕ) (file : List ℕ) where
  byte_of :
      (b : Block) (k pos : ℕ)
      → b.bytes ≡ loaded_data cache_size file b.base
      → k < cache_size
      → b.base + k ≡ pos
      → get_elem? b.bytes k ≡ get_elem? file pos
  byte_of b k pos e h at =
      ap (λ l. get_elem? l k) e
      ∙ get_elem?-loaded_data cache_size file b.base k h
      ∙ ap (get_elem? file) at

  -- What a read at `pos` gives.
  abbrev pub IsRead : ℕ → Option ℕ × Cache → Type 0
  IsRead pos r =
      (r.0 ≡ get_elem? file pos) × ((x : ℕ) → r.0 ≡ some x → IsAt cache_size file (pos + 1) (r.1))

  byte_at_lem :
      (bs : List Block) (i : ℕ) (b : Block) (offset pos : ℕ)
      → AllTrue cache_size file bs
      → 1 ≤ length bs
      → get_elem? bs i ≡ some b
      → b.bytes ≡ loaded_data cache_size file b.base
      → b.base + offset ≡ pos
      → offset < cache_size
      → IsRead pos (byte_at bs i b offset)
  byte_at_lem bs i b offset pos h l at bytes here small = go (leb (length b.bytes) offset) refl
    where
      go :
          (t : Bool)
          → leb (length b.bytes) offset ≡ t
          → IsRead pos (
              if t then (none, record { blocks = bs; index = some i; offset = offset }) else (
                get_elem? b.bytes offset,
                record { blocks = bs; index = some i; offset = offset + 1 },
              ))
      go true e = (
        sym (get_elem?-beyond b.bytes offset (ground (arith, e)))
            ∙ byte_of b offset pos bytes small here,
        (λ x y. absurd cc),
      )
      go false e = (
        byte_of b offset pos bytes small here,
        (λ x _. (h, l, (i, b.base, refl, (b, at, refl, bytes), omega (arith, here)))),
      )

  module _ (sized : 1 ≤ cache_size) where
    sought-IsRead :
        (pos : ℕ) (r : Option (ℕ × Block) × Cache)
        → IsSought cache_size file pos r
        → IsRead pos (elim (r.0) [
          | none ↦ (none, r.1)
          | some (j, b) ↦ byte_at (r.1.blocks) j b (r.1.offset)
        ])
    sought-IsRead pos (none, d) (beyond, _, _, _) =
        (sym (get_elem?-beyond file pos (short_le _ _ (beyond refl))), (λ x y. absurd cc))
    sought-IsRead pos (some (j, b), d) (_, t, n, at) =
        let (get, index, bytes, here, small) = at j b refl in
        byte_at_lem d.blocks j b d.offset pos t n get bytes here small

    loaded_byte :
        (pos i base : ℕ) (b : Block) (c : Cache)
        → AllTrue cache_size file c.blocks
        → 1 ≤ length c.blocks
        → get_elem? c.blocks i ≡ some b
        → b.base ≡ base
        → b.bytes ≡ loaded_data cache_size file base
        → base + c.offset ≡ pos
        → (t : Bool) → ltb c.offset (length b.bytes) ≡ t
        → IsRead pos (
            if t
            then byte_at c.blocks i b c.offset
            else let r = seek_block cache_size file (c.offset + b.base) c in
              elim (r.0) [
                | none ↦ (none, r.1)
                | some (j, b) ↦ byte_at (r.1.blocks) j b (r.1.offset)
              ])
    loaded_byte pos i base b c h l at b_base bytes here true e =
        byte_at_lem c.blocks i b c.offset pos h l at
          (bytes ∙ ap (loaded_data cache_size file) (sym b_base))
          (moved c.offset b.base base pos b_base here)
          (inside c.offset (length b.bytes) cache_size e (
            subst (λ l. length l ≤ cache_size) (sym bytes)
              (length-loaded_data cache_size file base)))
    loaded_byte pos i base b c h l at b_base bytes here false e =
        subst
          (λ p. IsRead pos (
            let r = seek_block cache_size file p c in
            elim (r.0) [
              | none ↦ (none, r.1)
              | some (j, b) ↦ byte_at (r.1.blocks) j b (r.1.offset)
            ]))
          (moved_back c.offset b.base base pos b_base here)
          (sought-IsRead pos (seek_block cache_size file pos c)
            (seek_block_lem cache_size file sized pos c h l))

    -- A read at `pos` gives the byte of the file there, or none behind its end, and leaves the cache at the
    -- next byte.
    pub read_byte_lem :
        (pos : ℕ) (c : Cache)
        → IsAt cache_size file pos c
        → IsRead pos (read_byte cache_size file c)
    unfolding read_byte
    read_byte_lem pos c (h, l, (i, base, index, (b, at, b_base, bytes), here)) =
        rw (read_byte, index, at)
          (loaded_byte pos i base b c h l at b_base bytes here (ltb c.offset (length b.bytes)) refl)

-- The bytes of up to `n` calls of readByte, until one fails.
unfoldable pub read_bytes : ℕ → List ℕ → ℕ → Cache → List ℕ
unfolding read_byte
read_bytes cache_size file zero c = []
read_bytes cache_size file (suc n) c =
    let (byte, c') = read_byte cache_size file c in
    let rest = read_bytes cache_size file n c' in elim byte [ none ↦ [] | some x ↦ x ∷ rest ]

read_bytes-take :
    (cache_size : ℕ) (file : List ℕ) (n pos : ℕ) (c : Cache)
    → 1 ≤ cache_size
    → IsAt cache_size file pos c
    → read_bytes cache_size file n c ≡ take n (drop pos file)
unfolding read_bytes
read_bytes-take cache_size file zero pos c sized h = refl
read_bytes-take cache_size file (suc n) pos c sized h =
    go (read_byte cache_size file c) (read_byte_lem cache_size file sized pos c h)
      (λ d. read_bytes-take cache_size file n (pos + 1) d sized)
  where
    go :
        (r : Option ℕ × Cache)
        → IsRead cache_size file pos r
        → ((d : Cache)
            → IsAt cache_size file (pos + 1) d
            → read_bytes cache_size file n d ≡ take n (drop (pos + 1) file))
        → elim (r.0) [ none ↦ [] | some x ↦ x ∷ read_bytes cache_size file n (r.1) ]
          ≡ take (suc n) (drop pos file)
    go (none, d) (byte, _) _ = sym (take-drop-none (suc n) pos file (sym byte))
    go (some x, d) (byte, next) more =
        ap (λ l. x ∷ l) (more d (next x refl)) ∙ sym (take-drop-some n pos x file (sym byte))

-- With the block size of openFile, from any cache whose loaded blocks hold what the file holds at their
-- places: a seek to a position up to the end of the file succeeds, and the calls of readByte that follow it
-- give the bytes of the file from there on, as many as were asked for or as the file has.
pub safe_seek-read_bytes :
    (file : List ℕ) (pos n : ℕ) (c : Cache)
    → AllTrue (cache_size_for (length file)) file c.blocks
    → 1 ≤ length c.blocks
    → pos ≤ length file
    → (c' : Cache) × (safe_seek (cache_size_for (length file)) file pos c ≡ some c')
      × (read_bytes (cache_size_for (length file)) file n c' ≡ take n (drop pos file))
safe_seek-read_bytes file pos n c h l inside_file =
    let cache_size = cache_size_for (length file) in
    let sized = cache_size_for-positive (length file) in
    let (c', e, at) = safe_seek_lem cache_size file sized pos c h l inside_file in
    (c', e, read_bytes-take cache_size file n pos c' sized at)

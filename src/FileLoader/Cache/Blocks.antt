-- ===== src/FileLoader/Cache/Blocks.antt =====
-- The blocks of the cache hold what the file holds at their places.
use evolution078ots.Prelude.{
  ℕ, zero, suc, ◌+◌, ◌-◌, ◌/◌, ◌≤◌, ◌<◌, min, max, true, none, some, List, [], ◌∷◌, length, take,
  drop, get_elem?, ◌==◌, if◌then◌else◌, ◌&&◌, ◌≡◌, refl, ap, ◌∙◌, arith, Bool-cases, Option-cases,
  inl, inr,
}
use evolution078ots.Prelude.Bits.{bit_and}
use evolution078ots.FileLoader.Cache.{
  Block, cache_size_for, cache_mask, base_pos, find_block, free_block, far_block, loading_block,
  set_block, loaded_data,
}

bit_and_le : (n a b : ℕ) → (bit_and n a b ≤ a) × (bit_and n a b ≤ b)
unfolding bit_and
bit_and_le zero a b = (omega arith, omega arith)
bit_and_le (suc n) a b =
    let (x, y) = bit_and_le n (a / 2) (b / 2) in (ground (arith, x), ground (arith, y))

masked : (s m : ℕ) → 8192 ≤ s → m ≤ 8191 → 1 ≤ s - m
masked s m h k = omega (arith, h, k)

pub cache_size_for-positive : (file_size : ℕ) → 1 ≤ cache_size_for file_size
unfolding cache_size_for
cache_size_for-positive file_size =
    let size = min 32768 (max (file_size / 20) 8192) in
    masked size (bit_and 64 size cache_mask) (omega arith) ((bit_and_le 64 size cache_mask).1)

rounded_range :
    (pos m n : ℕ) → m ≤ pos → m ≤ n - 1 → 1 ≤ n → (pos - m ≤ pos) × (pos - (pos - m) < n)
rounded_range pos m n x y h = (omega arith, omega (arith, x, y, h))

pub base_pos_range :
    (cache_size pos : ℕ)
    → 1 ≤ cache_size
    → (base_pos cache_size pos ≤ pos) × (pos - base_pos cache_size pos < cache_size)
unfolding base_pos
base_pos_range cache_size pos h =
    let (x, y) = bit_and_le 64 pos (cache_size - 1) in
    rounded_range pos (bit_and 64 pos (cache_size - 1)) cache_size x y h

get_elem?-take : (n : ℕ) (l : List ℕ) (k : ℕ) → k < n → get_elem? (take n l) k ≡ get_elem? l k
get_elem?-take zero l k h = absurd (omega (arith, h))
get_elem?-take (suc n) [] k h = refl
get_elem?-take (suc n) (x ∷ l) zero h = refl
get_elem?-take (suc n) (x ∷ l) (suc k) h = get_elem?-take n l k (omega (arith, h))

length-take_le : (n : ℕ) (l : List ℕ) → length (take n l) ≤ n
length-take_le zero l = omega arith
length-take_le (suc n) [] = omega arith
length-take_le (suc n) (x ∷ l) = omega (arith, length-take_le n l)

at_sum : (l : List ℕ) (a b : ℕ) → a ≡ b → get_elem? l a ≡ get_elem? l b
at_sum l a b e = ap (get_elem? l) e

at_suc : (x : ℕ) (l : List ℕ) (k : ℕ) → get_elem? l k ≡ get_elem? (x ∷ l) (suc k)
at_suc x l k = refl

get_elem?-drop : (n : ℕ) (l : List ℕ) (k : ℕ) → get_elem? (drop n l) k ≡ get_elem? l (n + k)
get_elem?-drop zero l k = ap (get_elem? l) (omega arith)
get_elem?-drop (suc n) [] k = refl
get_elem?-drop (suc n) (x ∷ l) k =
    get_elem?-drop n l k
    ∙ at_suc x l (n + k)
    ∙ at_sum (x ∷ l) (suc (n + k)) (suc n + k) (omega arith)

module _ (cache_size : ℕ) (file : List ℕ) where
  pub get_elem?-loaded_data :
      (base k : ℕ)
      → k < cache_size
      → get_elem? (loaded_data cache_size file base) k ≡ get_elem? file (base + k)
  get_elem?-loaded_data base k h =
      get_elem?-take cache_size (drop base file) k h ∙ get_elem?-drop base file k

  pub length-loaded_data : (base : ℕ) → length (loaded_data cache_size file base) ≤ cache_size
  length-loaded_data base = length-take_le cache_size (drop base file)

  -- A loaded block has the bytes of the file.
  abbrev pub IsTrue : Block → Type 0
  IsTrue b = b.loaded ≡ true → b.bytes ≡ loaded_data cache_size file b.base

  abbrev pub AllTrue : List Block → Type 0
  AllTrue bs = (k : ℕ) (b : Block) → get_elem? bs k ≡ some b → IsTrue b

pub get_elem?-set_block :
    (i : ℕ) (f : Block → Block) (bs : List Block) (j : ℕ)
    → get_elem? (set_block i f bs) j ≡ (
        if i == j
        then (elim (get_elem? bs j) [ none ↦ none | some b ↦ some (f b) ])
        else get_elem? bs j)
unfolding set_block
get_elem?-set_block i f [] j = ground arith
get_elem?-set_block zero f (b ∷ bs) zero = refl
get_elem?-set_block zero f (b ∷ bs) (suc j) = ground arith
get_elem?-set_block (suc i) f (b ∷ bs) zero = ground arith
get_elem?-set_block (suc i) f (b ∷ bs) (suc j) = ground (arith, get_elem?-set_block i f bs j)

pub length-set_block :
    (i : ℕ) (f : Block → Block) (bs : List Block) → length (set_block i f bs) ≡ length bs
unfolding set_block
length-set_block i f [] = refl
length-set_block zero f (b ∷ bs) = refl
length-set_block (suc i) f (b ∷ bs) = ap suc (length-set_block i f bs)

pub find_block-get_elem? :
    (base n i : ℕ) (bs : List Block)
    → find_block base n bs ≡ some i
    → (k : ℕ) × (b : Block) × (i ≡ n + k)
      × (get_elem? bs k ≡ some b)
      × (b.loaded ≡ true)
      × (b.base ≡ base)
unfolding find_block
find_block-get_elem? base n i [] h = cc
find_block-get_elem? base n i (b ∷ bs) h = elim (Bool-cases (b.loaded && (b.base == base))) [
  | inl here ↦ (0, b, ground (arith, here, h), refl, ground (arith, here), ground (arith, here))
  | inr there ↦
      let (k, c, e, at, l, same) =
        find_block-get_elem? base (n + 1) i bs (ground (arith, there, h)) in
      (suc k, c, omega (arith, e), at, l, same)
]

free_block-small :
    (n m i : ℕ) (bs : List Block) → n + length bs ≤ m → free_block n bs ≡ some i → i < m
unfolding free_block
free_block-small n m i [] l h = cc
free_block-small n m i (b ∷ bs) l h =
    ground (arith, h, free_block-small (n + 1) m i bs (omega (arith, l)))

far_block-small :
    (cache_size base n m : ℕ) (bs : List Block)
    → 1 ≤ m
    → n + length bs ≤ m
    → far_block cache_size base n bs < m
unfolding far_block
far_block-small cache_size base n m [] h l = h
far_block-small cache_size base n m (b ∷ bs) h l =
    ground (arith, l, far_block-small cache_size base (n + 1) m bs h (omega (arith, l)))

pub loading_block-small :
    (cache_size base : ℕ) (bs : List Block)
    → 1 ≤ length bs
    → loading_block cache_size base bs < length bs
unfolding loading_block
loading_block-small cache_size base bs h = elim (Option-cases (free_block 0 bs)) [
  | inl e ↦ ground (arith, e, far_block-small cache_size base 0 (length bs) bs h (omega arith))
  | inr (i, e) ↦ ground (arith, e, free_block-small 0 (length bs) i bs (omega arith) e)
]

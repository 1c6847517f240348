-- ===== src/Map/Tiles.antt =====
-- The table of the tiles of class Map (source/map.cpp): getTile and setTile. A tile is its address.
use evolution078ots.Prelude.{
  ℕ, ◌+◌, ◌*◌, ◌/◌, ◌%◌, ◌<◌, Bool, true, false, ◌&&◌, Option, none, some, ltb, ◌==◌, if◌then◌else◌,
  ◌≡◌, refl, ap, ◌∙◌, arith, Bool-cases, Option-cases, inl, inr,
}
use evolution078ots.Prelude.Table.{Table, find, assign, find-assign}

-- tileMaps: a std::map for each of 128 x 128 places.
abbrev pub TileMaps : Type 0
TileMaps = ℕ → ℕ → Table ℕ

-- `(x & 0xFF80) << 16 | (y & 0xFF80) << 1 | z`, whose parts have no bit in common. An int whose sign
-- bit is set stands for an unsigned number; the conversion to the type of the keys is one to one.
unfoldable pub key : ℕ → ℕ → ℕ → ℕ
key x y z = x / 128 * 128 * 65536 + y / 128 * 128 * 2 + z

-- `n & 0x7F`.
abbrev pub low : ℕ → ℕ
low n = n % 128

unfoldable pub get_tile : TileMaps → ℕ → ℕ → ℕ → Option ℕ
unfolding key
get_tile m x y z = if ltb z 16 then find (key x y z) (m (low x) (low y)) else none

-- A tile that is there already is kept, and so is the table; a z of 16 or more finds none.
unfoldable pub set_tile : TileMaps → ℕ → ℕ → ℕ → ℕ → TileMaps
unfolding get_tile key
set_tile m x y z tile = elim (get_tile m x y z) [
  | some old ↦ m
  | none ↦ λ i j. if (i == low x) && (j == low y) then assign (key x y z) tile (m i j) else m i j
]

-- The same square of the map.
abbrev pub same_place : ℕ → ℕ → ℕ → ℕ → ℕ → ℕ → Bool
same_place x y z x' y' z' = (x == x') && ((y == y') && (z == z'))

-- The place in the table and the key tell the squares apart.
same_key :
    (x y z x' y' z' : ℕ)
    → x < 65536
    → y < 65536
    → x' < 65536
    → y' < 65536
    → z < 256
    → z' < 256
    → (low x' == low x) ≡ true
    → (low y' == low y) ≡ true
    → (key x' y' z' == key x y z) ≡ same_place x' y' z' x y z
unfolding key
same_key x y z x' y' z' a b c d e f g h = ground (arith, a, b, c, d, e, f, g, h)

abbrev pub is_none {ℓ} : {A : Type ℓ} → Option A → Bool
is_none none = true
is_none (some a) = false

set_tile_there :
    (m : TileMaps) (x y z tile old : ℕ) → get_tile m x y z ≡ some old → set_tile m x y z tile ≡ m
unfolding set_tile
set_tile_there m x y z tile old there = rw (set_tile, there) refl

set_tile_free :
    (m : TileMaps) (x y z tile i j : ℕ)
    → get_tile m x y z ≡ none
    → set_tile m x y z tile i j
      ≡ (if (i == low x) && (j == low y) then assign (key x y z) tile (m i j) else m i j)
unfolding set_tile
set_tile_free m x y z tile i j free = rw (set_tile, free) refl

occupied :
    (s l : Bool) (o : Option ℕ) (old tile : ℕ) (g : Option ℕ)
    → o ≡ some old
    → g ≡ (if s && (l && is_none o) then some tile else g)
occupied s l o old tile g there = rw there (ground arith)

-- With `s` for the same square, `l` and `l'` for a z below 16.
placed :
    (s l l' : Bool) (o : Option ℕ) (tile : ℕ) (g : Option ℕ)
    → o ≡ none
    → (s ≡ true → l' ≡ l)
    → (if l' then (if s then some tile else g) else none)
      ≡ (if s && (l && is_none o) then some tile else if l' then g else none)
placed true true l' o tile g free same = rw (free, same refl) refl
placed true false l' o tile g free same = rw (same refl) refl
placed false l l' o tile g free same = refl

same_layer : (x y z x' y' z' : ℕ) → same_place x' y' z' x y z ≡ true → ltb z' 16 ≡ ltb z 16
same_layer x y z x' y' z' h = ground (arith, h)

far_place :
    (x y z x' y' z' : ℕ)
    → (low x' == low x) && (low y' == low y) ≡ false
    → same_place x' y' z' x y z ≡ false
far_place x y z x' y' z' far = ground (arith, far)

both : (a b : Bool) → a && b ≡ true → (a ≡ true) × (b ≡ true)
both a b h = (ground (arith, h), ground (arith, h))

find_near :
    (m : TileMaps) (x y z tile x' y' z' : ℕ)
    → x < 65536
    → y < 65536
    → z < 256
    → x' < 65536
    → y' < 65536
    → z' < 256
    → get_tile m x y z ≡ none
    → find (key x' y' z') (set_tile m x y z tile (low x') (low y'))
      ≡ (if same_place x' y' z' x y z then some tile else find (key x' y' z') (m (low x') (low y')))
find_near m x y z tile x' y' z' a b c d e f free =
    ap (find (key x' y' z')) (set_tile_free m x y z tile (low x') (low y') free) ∙ by_place
  where
    by_place :
        find (key x' y' z') (
          if (low x' == low x) && (low y' == low y)
          then assign (key x y z) tile (m (low x') (low y'))
          else m (low x') (low y'))
        ≡ (if same_place x' y' z' x y z
            then some tile
            else find (key x' y' z') (m (low x') (low y')))
    by_place = elim (Bool-cases ((low x' == low x) && (low y' == low y))) [
      | inl near ↦
          let (g, h) = both (low x' == low x) (low y' == low y) near in
          rw near (
            find-assign (key x' y' z') (key x y z) tile (m (low x') (low y'))
            ∙ rw (same_key x y z x' y' z' a b d e c f g h) refl)
      | inr far ↦ rw (far, far_place x y z x' y' z' far) refl
    ]

-- setTile at a square without a tile puts it there, and no other square of the map changes; a square
-- that has one keeps it. Squares whose z is 16 or more have no tile.
pub get_tile-set_tile :
    (m : TileMaps) (x y z tile x' y' z' : ℕ)
    → x < 65536
    → y < 65536
    → z < 256
    → x' < 65536
    → y' < 65536
    → z' < 256
    → get_tile (set_tile m x y z tile) x' y' z' ≡ (
        if same_place x' y' z' x y z && (ltb z 16 && is_none (get_tile m x y z))
        then some tile
        else get_tile m x' y' z')
unfolding get_tile
get_tile-set_tile m x y z tile x' y' z' a b c d e f = elim (Option-cases (get_tile m x y z)) [
  | inr (old, there) ↦
      ap (λ t. get_tile t x' y' z') (set_tile_there m x y z tile old there)
      ∙ occupied (same_place x' y' z' x y z) (ltb z 16) (get_tile m x y z) old tile
          (get_tile m x' y' z') there
  | inl free ↦
      ap (λ o. if ltb z' 16 then o else none) (find_near m x y z tile x' y' z' a b c d e f free)
      ∙ placed (same_place x' y' z' x y z) (ltb z 16) (ltb z' 16) (get_tile m x y z) tile
          (find (key x' y' z') (m (low x') (low y'))) free (same_layer x y z x' y' z')
]

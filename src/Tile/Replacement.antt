-- ===== src/Tile/Replacement.antt =====
-- What __replaceThing does at each index.
use evolution078ots.Prelude.{
  ℕ, suc, zero, ◌+◌, ◌-◌, true, false, Option, none, some, List, [], ◌∷◌, length, get_elem?, ltb,
  ◌==◌, if◌then◌else◌, ◌≡◌, refl, arith, Bool-cases, inl, inr, ap, ◌∙◌,
}
use evolution078ots.Prelude.Int.{pos, negsuc, ◌-ℤ◌}
use evolution078ots.Item.{Item, set_parent}
use evolution078ots.Tile.{
  Tile, Replaced, done, undefined, set_at, replace_ground, replace_top, replace_down, adopt,
  replace_end, replace_above, replace_thing,
}

-- The tile with the new item in the place of the ground or of a top item. `ground` is the tile's.
abbrev pub placed : Option Item → Tile → ℕ → Item → Tile
placed none t index new = record t { top_items = set_at index new t.top_items }
placed (some g) t index new =
    if index == 0
    then record t { ground = some new }
    else record t { top_items = set_at (index - 1) new t.top_items }

-- The new item below the creatures, with the tile as its parent, and the old one without a parent.
abbrev pub exchanged : Tile → ℕ → Item → Replaced
exchanged t k new = elim (get_elem? t.down_items k) [
  | none ↦ undefined
  | some old ↦
      done (adopt (record t { down_items = set_at k new t.down_items }) new.address)
        (some (set_parent old none))
]

length-set_at : (k : ℕ) (new : Item) (is : List Item) → length (set_at k new is) ≡ length is
unfolding set_at
length-set_at k new [] = refl
length-set_at zero new (i ∷ is) = refl
length-set_at (suc k) new (i ∷ is) = ap suc (length-set_at k new is)

module _ (t : Tile) (new : Item) where
  -- From the top items on, where `n` things lie below the index.
  pub replace_above_lem :
      (index : ℕ)
      → replace_above new (replace_top new (t, none, pos index)) ≡ (
          if ltb index (length t.top_items)
          then done (record t { top_items = set_at index new t.top_items }) none
          else if ltb index (length t.top_items + length t.creatures)
          then done t none
          else if ltb index (length t.top_items + length t.creatures + length t.down_items)
          then exchanged t (index - length t.top_items - length t.creatures) new
          else if index == length t.top_items + length t.creatures
          then undefined
          else done t none)
  unfolding replace_above replace_top replace_down replace_end ◌-ℤ◌
  replace_above_lem index = ground (arith, length-set_at index new t.top_items)

pub below_all :
    (t : Tile) (new : Item) (old : Option Item)
    → replace_above new (replace_top new (t, old, negsuc 0)) ≡ done t none
unfolding replace_above replace_top replace_down replace_end ◌-ℤ◌
below_all t new old = ground arith

-- The cases by the index: `b` things lie up to the top items, `cr` creatures and `dn` items follow.
abbrev pub by_index : ℕ → ℕ → ℕ → ℕ → Replaced → Replaced → (ℕ → Replaced) → Replaced
by_index index b cr dn x y f =
    if ltb index b
    then x
    else if ltb index (b + cr)
    then y
    else if ltb index (b + cr + dn)
    then f (index - b - cr)
    else if index == b + cr
    then undefined
    else y

by_index_zero :
    (index b cr dn : ℕ) (x y : Replaced) (f : ℕ → Replaced)
    → by_index index b cr dn x y f ≡ by_index index (0 + b) cr dn x y f
by_index_zero index b cr dn x y f = ground arith

by_index_suc :
    (index b cr dn : ℕ) (x y : Replaced) (f : ℕ → Replaced)
    → (index == 0) ≡ false
    → by_index (index - 1) b cr dn x y f ≡ by_index index (1 + b) cr dn x y f
by_index_suc index b cr dn x y f h = ground (arith, h)

by_index_first :
    (index b cr dn : ℕ) (x y : Replaced) (f : ℕ → Replaced)
    → (index == 0) ≡ true
    → x ≡ by_index index (1 + b) cr dn x y f
by_index_first index b cr dn x y f h = ground (arith, h)

-- What becomes of a tile, by the index of the thing that is replaced.
abbrev pub outcome : Option Item → Tile → ℕ → Item → Replaced
outcome g t index new =
    by_index index ((elim g [ none ↦ 0 | some _ ↦ 1 ]) + length t.top_items) (length t.creatures)
      (length t.down_items) (done (placed g t index new) none) (done t none)
      (λ k. exchanged t k new)

from_ground :
    (t : Tile) (index : ℕ) (new : Item) (ground : Option Item)
    → replace_above new (
        replace_top new (elim ground [
          | none ↦ (t, none, pos index)
          | some g ↦
              if index == 0
              then (record t { ground = some new }, some g, negsuc 0)
              else (t, none, pos (index - 1))
        ]))
      ≡ outcome ground t index new
from_ground t index new none =
    replace_above_lem t new index
    ∙ by_index_zero index (length t.top_items) (length t.creatures) (length t.down_items)
        (done (record t { top_items = set_at index new t.top_items }) none) (done t none)
        (λ k. exchanged t k new)
from_ground t index new (some g) = elim (Bool-cases (index == 0)) [
  | inl first ↦ rw first (
      below_all (record t { ground = some new }) new (some g)
      ∙ by_index_first index (length t.top_items) (length t.creatures) (length t.down_items)
          (done (record t { ground = some new }) none) (done t none) (λ k. exchanged t k new) first)
  | inr later ↦ rw later (
      replace_above_lem t new (index - 1)
      ∙ by_index_suc index (length t.top_items) (length t.creatures) (length t.down_items)
          (done (record t { top_items = set_at (index - 1) new t.top_items }) none) (done t none)
          (λ k. exchanged t k new) later)
]

-- __replaceThing at an index of the ground or of a top item puts the new item there, but neither gives
-- it a parent nor takes that of the old one; at a creature's it does nothing; at that of another item
-- it exchanges the two and their parents; behind the last thing it does nothing, but where no item lies
-- below the creatures, the index right behind the last thing has no defined behaviour.
pub replace_thing_lem :
    (t : Tile) (index : ℕ) (new : Item) → replace_thing t index new ≡ outcome t.ground t index new
unfolding replace_thing replace_ground
replace_thing_lem t index new = from_ground t index new t.ground

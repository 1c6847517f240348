-- ===== src/Tile/Queries.antt =====
-- What the rest of the server asks a tile.
use evolution078ots.Prelude.{
  ℕ, zero, suc, ◌+◌, ◌%◌, ◌^◌, max, Bool, not, ◌&&◌, ◌||◌, Option, none, some, List, [], ◌∷◌, ◌==◌,
  ltb, if◌then◌else◌,
}
use evolution078ots.Item.{
  Item, ItemTable, ReturnValue, no_error, not_possible, not_moveable, matching,
}
use evolution078ots.Tile.{
  Tile, Thing, item, creature, get_thing, get_thing_count, get_index_of_thing, is_none,
}

abbrev head {ℓ} : {A : Type ℓ} → List A → Option A
head [] = none
head (x ∷ xs) = some x

abbrev last {ℓ} : {A : Type ℓ} → List A → Option A
last [] = none
last (x ∷ []) = some x
last (x ∷ y ∷ xs) = last (y ∷ xs)

unfoldable pub get_top_creature : Tile → Option ℕ
get_top_creature t = head t.creatures

unfoldable pub get_top_down_item : Tile → Option Item
get_top_down_item t = head t.down_items

unfoldable pub get_top_top_item : Tile → Option Item
get_top_top_item t = last t.top_items

unfoldable pub get_top_thing : Tile → Option Thing
unfolding get_top_creature get_top_down_item get_top_top_item
get_top_thing t = elim (get_top_creature t) [
  | some a ↦ some (creature a)
  | none ↦ elim (get_top_down_item t) [
    | some i ↦ some (item i)
    | none ↦ elim (get_top_top_item t) [
      | some i ↦ some (item i)
      | none ↦ elim t.ground [ none ↦ none | some g ↦ some (item g) ]
    ]
  ]
]

-- maxQueryCount and the result of __queryMaxCount.
unfoldable pub query_max_count : ℕ → ℕ × ReturnValue
query_max_count count = (max 1 count, no_error)

-- __queryRemove of an item.
unfoldable pub query_remove : ItemTable → Tile → Item → ℕ → ReturnValue
unfolding get_index_of_thing
query_remove items t i count =
    if is_none (get_index_of_thing t i.address)
    then not_possible
    else if count == 0 || (items i.id).stackable && ltb i.count count
    then not_possible
    else if not (items i.id).moveable || not (i.unique_id == 0)
    then not_moveable
    else no_error

-- What a thing counts for; `none` where the pointer is NULL.
unfoldable pub thing_matching : ItemTable → ℕ → Option ℕ → Bool → Option Thing → Option ℕ
unfolding matching
thing_matching items id sub flag none = none
thing_matching items id sub flag (some (creature a)) = some 0
thing_matching items id sub flag (some (item i)) = some (matching items id sub flag i)

-- The loop of __getItemTypeCount, for `n` indices from `i` on.
unfoldable pub count_things : ItemTable → ℕ → Option ℕ → Bool → Tile → ℕ → ℕ → ℕ → Option ℕ
unfolding thing_matching get_thing
count_things items id sub flag t zero i count = some count
count_things items id sub flag t (suc n) i count =
    elim (thing_matching items id sub flag (get_thing t i)) [
      | none ↦ none
      | some v ↦ count_things items id sub flag t n (i + 1) ((count + v) % 2 ^ 32)
    ]

unfoldable pub get_item_type_count : ItemTable → Tile → ℕ → Option ℕ → Bool → Option ℕ
unfolding count_things get_thing_count
get_item_type_count items t id sub flag = count_things items id sub flag t (get_thing_count t) 0 0

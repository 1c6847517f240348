-- ===== src/Tile.antt =====
-- The class Tile of source/tile.cpp: the stack of things on a square of the map. The arena of a tile
-- and what its operations send to the clients are left out.
use evolution078ots.Prelude.{
  ℕ, zero, suc, ◌+◌, ◌-◌, ◌*◌, Bool, true, false, not, ◌&&◌, ◌||◌, Option, none, some, List, [],
  ◌∷◌, ◌++◌, map, length, get_elem?, ltb, leb, ◌==◌, if◌then◌else◌,
}
use evolution078ots.Prelude.Int.{ℤ, pos, negsuc, ltb_ℤ, eq_ℤ, ◌-ℤ◌}
use evolution078ots.Item.{
  Item, ItemType, ItemTable, set_parent, set_item_count, set_item_count_or_subtype, new_count,
  find_item, erase_item, change_item, is_of, counts_for,
}
pub mod Stack
pub mod Layers
pub mod History
pub mod Changes
pub mod Replacement
pub mod Queries
pub mod Counting
mod Examples

-- `creatures` holds the addresses of the creatures.
pub record Tile : Type 0 where
  pub address : ℕ
  pub ground : Option Item
  pub top_items : List Item
  pub creatures : List ℕ
  pub down_items : List Item

pub data Thing : Type 0 where
  item : Item → Thing
  creature : ℕ → Thing

abbrev pub thing_address : Thing → ℕ
thing_address (item i) = i.address
thing_address (creature a) = a

abbrev pub addresses : List Item → List ℕ
addresses = map λ i. i.address

abbrev pub ground_count : Tile → ℕ
ground_count t = elim t.ground [ none ↦ 0 | some _ ↦ 1 ]

unfoldable pub get_thing_count : Tile → ℕ
get_thing_count t = ground_count t + length t.top_items + length t.creatures + length t.down_items

-- A loop of __getIndexOfThing over a list whose first index is `n`.
unfoldable pub index_in : ℕ → ℕ → List ℕ → Option ℕ
index_in a n [] = none
index_in a n (b ∷ bs) = let rest = index_in a (n + 1) bs in if b == a then some n else rest

unfoldable pub index_above : Tile → ℕ → ℕ → Option ℕ
unfolding index_in
index_above t a n = elim (index_in a n (addresses t.top_items)) [
  | some k ↦ some k
  | none ↦ elim (index_in a (n + length t.top_items) t.creatures) [
    | some k ↦ some k
    | none ↦ index_in a (n + length t.top_items + length t.creatures) (addresses t.down_items)
  ]
]

-- -1 stands as `none`.
unfoldable pub get_index_of_thing : Tile → ℕ → Option ℕ
unfolding index_above
get_index_of_thing t a = elim t.ground [
  | none ↦ index_above t a 0
  | some g ↦ if g.address == a then some 0 else index_above t a 1
]

abbrev pub item_thing : Option Item → Option Thing
item_thing none = none
item_thing (some i) = some (item i)

abbrev pub creature_thing : Option ℕ → Option Thing
creature_thing none = none
creature_thing (some a) = some (creature a)

-- The part of __getThing below the ground.
unfoldable pub thing_above : Tile → ℕ → Option Thing
thing_above t index =
    if ltb index (length t.top_items)
    then item_thing (get_elem? t.top_items index)
    else let index' = index - length t.top_items in
      if ltb index' (length t.creatures)
      then creature_thing (get_elem? t.creatures index')
      else let index'' = index' - length t.creatures in
        if ltb index'' (length t.down_items)
        then item_thing (get_elem? t.down_items index'')
        else none

unfoldable pub get_thing : Tile → ℕ → Option Thing
unfolding thing_above
get_thing t index = elim t.ground [
  | none ↦ thing_above t index
  | some g ↦ if index == 0 then some (item g) else thing_above t (index - 1)
]

abbrev pub is_none {ℓ} : {A : Type ℓ} → Option A → Bool
is_none none = true
is_none (some a) = false

abbrev pub is_at : Option Item → ℕ → Bool
is_at none a = false
is_at (some i) a = i.address == a

-- The item with an address in the two lists.
unfoldable pub listed_item : Tile → ℕ → Option Item
unfolding find_item
listed_item t a = elim (find_item a t.top_items) [
  | some i ↦ some i
  | none ↦ find_item a t.down_items
]

-- __removeThing of an item. What it returns is true in every case.
unfoldable pub remove_item : ItemTable → Tile → ℕ → ℕ → Tile
unfolding get_index_of_thing listed_item erase_item change_item set_item_count new_count
remove_item items t a count =
    if is_none (get_index_of_thing t a)
    then t
    else if is_at t.ground a
    then record t { ground = none }
    else elim (listed_item t a) [
      | none ↦ t
      | some i ↦
          if (items i.id).always_on_top
          then record t { top_items = erase_item a t.top_items }
          else if (items i.id).stackable && not (count == i.count)
          then record t {
            down_items =
                change_item a (λ j. set_item_count j (new_count j.count count)) t.down_items;
          }
          else record t { down_items = erase_item a t.down_items }
    ]

unfoldable pub erase_address : ℕ → List ℕ → List ℕ
erase_address a [] = []
erase_address a (b ∷ bs) = let rest = erase_address a bs in if b == a then bs else b ∷ rest

-- __removeThing of a creature.
unfoldable pub remove_creature : Tile → ℕ → Tile
unfolding erase_address
remove_creature t a = record t { creatures = erase_address a t.creatures }

-- The first item of a kind in a list.
unfoldable pub first_of : (Item → Bool) → List Item → Option Item
first_of f [] = none
first_of f (i ∷ list) = let rest = first_of f list in if f i then some i else rest

-- A splash or a field that is there already is removed and freed.
unfoldable pub clear_old : ItemTable → Tile → Option Item → Tile × List Item
unfolding remove_item
clear_old items t none = (t, [])
clear_old items t (some old) =
    (remove_item items t old.address 1, record old { parent = none } ∷ [])

-- In front of the first item whose order is not smaller.
unfoldable pub insert_top : ItemTable → Item → List Item → List Item
insert_top items i [] = i ∷ []
insert_top items i (j ∷ list) =
    let rest = insert_top items i list in
    if leb (items i.id).always_on_top_order (items j.id).always_on_top_order
    then i ∷ j ∷ list
    else j ∷ rest

unfoldable pub put_top : ItemTable → Item → Tile × List Item → Tile × List Item
unfolding insert_top
put_top items i (t, freed) = (record t { top_items = insert_top items i t.top_items }, freed)

unfoldable pub put_down : Item → Tile × List Item → Tile × List Item
put_down i (t, freed) = (record t { down_items = i ∷ t.down_items }, freed)

unfoldable pub add_creature : Tile → ℕ → Tile
add_creature t a = record t { creatures = a ∷ t.creatures }

-- __addThing of an item: the tile, and the items that are freed.
unfoldable pub add_item : ItemTable → Tile → Item → Tile × List Item
unfolding first_of clear_old put_top put_down
add_item items t new =
    let i = record new { parent = some t.address } in
    let it = items i.id in
    if it.is_ground_tile
    then elim t.ground [
      | none ↦ (record t { ground = some i }, [])
      | some g ↦ (record t { ground = some i }, record g { parent = none } ∷ [])
    ]
    else if it.always_on_top
    then put_top items i (
        if it.is_splash
        then clear_old items t (first_of (λ j. (items j.id).is_splash) t.top_items)
        else (t, []))
    else put_down i (
        if it.is_magic_field
        then clear_old items t (first_of (λ j. (items j.id).is_magic_field) t.down_items)
        else (t, []))

-- In front of the first item whose order is larger.
unfoldable pub insert_top_last : ItemTable → Item → List Item → List Item
insert_top_last items i [] = i ∷ []
insert_top_last items i (j ∷ list) =
    let rest = insert_top_last items i list in
    if ltb (items i.id).always_on_top_order (items j.id).always_on_top_order
    then i ∷ j ∷ list
    else j ∷ rest

-- __internalAddThing of an item, used while a map is loaded.
unfoldable pub internal_add_item : ItemTable → Tile → Item → Tile
unfolding insert_top_last
internal_add_item items t new =
    let i = record new { parent = some t.address } in
    let it = items i.id in
    if it.is_ground_tile
    then elim t.ground [ none ↦ record t { ground = some i } | some g ↦ t ]
    else if it.always_on_top
    then record t { top_items = insert_top_last items i t.top_items }
    else record t { down_items = i ∷ t.down_items }

unfoldable pub change_ground : ℕ → (Item → Item) → Option Item → Option Item
change_ground a f none = none
change_ground a f (some g) = if g.address == a then some (f g) else some g

unfoldable pub update_item : ItemTable → Tile → ℕ → ℕ → Tile
unfolding get_index_of_thing change_item change_ground set_item_count_or_subtype
update_item items t a count = if is_none (get_index_of_thing t a) then t else record t {
  ground = change_ground a (λ i. set_item_count_or_subtype items i count) t.ground;
  top_items = change_item a (λ i. set_item_count_or_subtype items i count) t.top_items;
  down_items = change_item a (λ i. set_item_count_or_subtype items i count) t.down_items;
}

-- What __replaceThing leaves: the tile and the item that has lost its parent, or no defined behaviour,
-- where `oldItem` is NULL.
pub data Replaced : Type 0 where
  done : Tile → Option Item → Replaced
  undefined : Replaced

-- `pos >= 0 && pos < size`.
abbrev pub within : ℤ → ℕ → Bool
within (pos k) n = ltb k n
within (negsuc k) n = false

abbrev pub index_of : ℤ → ℕ
index_of (pos k) = k
index_of (negsuc k) = 0

unfoldable pub set_at : ℕ → Item → List Item → List Item
set_at k new [] = []
set_at zero new (i ∷ is) = new ∷ is
set_at (suc k) new (i ∷ is) = i ∷ set_at k new is

-- The tile, `oldItem` and `pos` on the way.
abbrev pub Search : Type 0
Search = Tile × Option Item × ℤ

unfoldable pub replace_ground : Tile → ℕ → Item → Search
replace_ground t index new = elim t.ground [
  | none ↦ (t, none, pos index)
  | some g ↦
      if index == 0
      then (record t { ground = some new }, some g, negsuc 0)
      else (t, none, pos (index - 1))
]

unfoldable pub replace_top : Item → Search → Search
unfolding set_at
replace_top new (t, old, p) =
    if within p (length t.top_items)
    then (
      record t { top_items = set_at (index_of p) new t.top_items },
      get_elem? t.top_items (index_of p),
      pos 0,
    )
    else (t, old, p)

unfoldable pub replace_down : Item → Search → Search
unfolding set_at
replace_down new (t, old, p) =
    if within p (length t.down_items)
    then (
      record t { down_items = set_at (index_of p) new t.down_items },
      get_elem? t.down_items (index_of p),
      pos 0,
    )
    else (t, old, p)

-- `item->setParent(this)` of an item on the tile.
unfoldable pub adopt : Tile → ℕ → Tile
unfolding change_item change_ground
adopt t a = record t {
  ground = change_ground a (λ i. set_parent i (some t.address)) t.ground;
  top_items = change_item a (λ i. set_parent i (some t.address)) t.top_items;
  down_items = change_item a (λ i. set_parent i (some t.address)) t.down_items;
}

unfoldable pub replace_end : Item → Search → Replaced
unfolding adopt
replace_end new (t, old, p) =
    if eq_ℤ p (pos 0)
    then elim old [
      | none ↦ undefined
      | some o ↦ done (adopt t new.address) (some (set_parent o none))
    ]
    else done t none

unfoldable pub replace_above : Item → Search → Replaced
unfolding replace_down replace_end
replace_above new (t, old, p) =
    let p1 = p -ℤ pos (length t.top_items) in
    if within p1 (length t.creatures)
    then done t none
    else replace_end new (replace_down new (t, old, p1 -ℤ pos (length t.creatures)))

unfoldable pub replace_thing : Tile → ℕ → Item → Replaced
unfolding replace_ground replace_top replace_above
replace_thing t index new = replace_above new (replace_top new (replace_ground t index new))

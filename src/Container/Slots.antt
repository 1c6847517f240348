-- ===== src/Container/Slots.antt =====
-- The list of items of a Container (source/container.cpp): its queries and its changes, as the
-- operations of a Cylinder. What they send to the clients is left out.
use evolution078ots.Prelude.{
  ℕ, ◌+◌, ◌-◌, ◌*◌, ◌%◌, ◌^◌, max, Bool, false, not, ◌&&◌, ◌||◌, Option, none, some, List, [], ◌∷◌,
  length, ltb, leb, ◌==◌, if◌then◌else◌,
}
use evolution078ots.Prelude.Table.{Table, find}
use evolution078ots.Item.{
  Item, ItemTable, ReturnValue, no_error, not_possible, not_moveable, cannot_pickup,
  this_is_impossible, container_not_enough_room, set_parent, set_item_count,
  set_item_count_or_subtype, new_count, erase_item, change_item, sum_matching,
}
use evolution078ots.Tile.{addresses, index_in, is_none}

pub record Slots : Type 0 where
  pub max_size : ℕ
  pub itemlist : List Item

-- The containers by their addresses.
abbrev pub Store : Type 0
Store = Table Slots

-- A container is changed in its place.
unfoldable pub change_slots : ℕ → (Slots → Slots) → Store → Store
change_slots k f [] = []
change_slots k f ((j, c) ∷ s) =
    let rest = change_slots k f s in if k == j then (j, f c) ∷ s else (j, c) ∷ rest

pub record Flags : Type 0 where
  pub no_limit : Bool
  pub child_is_owner : Bool

-- Where a container is: the cylinders that getParent reaches from it, one after the other, and what
-- __queryAdd of its top parent answers, where that is not the container itself.
pub record Place : Type 0 where
  pub parents : List ℕ
  pub owner : Option ReturnValue

unfoldable pub size : Slots → ℕ
size c = length c.itemlist

-- The loop of getItem and __getThing over a list whose first index is `n`.
unfoldable pub item_from : ℕ → ℕ → List Item → Option Item
item_from n index [] = none
item_from n index (i ∷ is) =
    let rest = item_from (n + 1) index is in if n == index then some i else rest

unfoldable pub get_item : Slots → ℕ → Option Item
unfolding item_from
get_item c index = item_from 0 index c.itemlist

unfoldable pub get_thing : Slots → ℕ → Option Item
unfolding item_from size
get_thing c index = if ltb (size c) index then none else item_from 0 index c.itemlist

unfoldable pub get_index_of_thing : Slots → ℕ → Option ℕ
unfolding index_in
get_index_of_thing c a = index_in a 0 (addresses c.itemlist)

-- Whether an address is among those of the parents.
unfoldable pub among : ℕ → List ℕ → Bool
among a [] = false
among a (b ∷ bs) = (b == a) || among a bs

-- __queryAdd of an item; the index INDEX_WHEREEVER is `none`.
unfoldable pub query_add : ItemTable → Place → ℕ → Slots → Option ℕ → Item → Flags → ReturnValue
unfolding among size
query_add items place this c index i flags =
    if flags.child_is_owner
    then no_error
    else if not (items i.id).pickupable
    then cannot_pickup
    else if (i.address == this) || among i.address place.parents
    then this_is_impossible
    else if is_none index && (not flags.no_limit && leb c.max_size (size c))
    then container_not_enough_room
    else elim place.owner [ none ↦ no_error | some r ↦ r ]

-- What fits on the stack at an index: 100 less the count, in 32 bits.
unfoldable pub fits_at : Option Item → Item → ℕ
fits_at none i = 0
fits_at (some dest) i = if dest.id == i.id then (100 + 2 ^ 32 - dest.count) % 2 ^ 32 else 0

abbrev pub thing_at : Slots → Option ℕ → Option Item
thing_at c none = none
thing_at c (some k) = get_thing c k

-- maxQueryCount and the result of __queryMaxCount.
unfoldable pub query_max_count : ItemTable → Slots → Option ℕ → Item → ℕ → Flags → ℕ × ReturnValue
unfolding size get_thing fits_at
query_max_count items c index i count flags =
    if flags.no_limit
    then (max 1 count, no_error)
    else let free_slots = c.max_size - size c in
      let most = (free_slots * 100 + fits_at (thing_at c index) i) % 2 ^ 32 in
      if (items i.id).stackable
      then (most, if ltb most count then container_not_enough_room else no_error)
      else if free_slots == 0
      then (free_slots, container_not_enough_room)
      else (free_slots, no_error)

-- __queryRemove of an item.
unfoldable pub query_remove : ItemTable → Slots → Item → ℕ → ReturnValue
unfolding get_index_of_thing
query_remove items c i count =
    if is_none (get_index_of_thing c i.address)
    then not_possible
    else if (count == 0) || ((items i.id).stackable && ltb i.count count)
    then not_possible
    else if not (items i.id).moveable || not (i.unique_id == 0)
    then not_moveable
    else no_error

-- Where a thing goes: the container, the index there and the item that lies there.
pub record Destination : Type 0 where
  pub cylinder : ℕ
  pub index : Option ℕ
  pub dest_item : Option Item

abbrev pub head {ℓ} : {A : Type ℓ} → List A → Option A
head [] = none
head (x ∷ xs) = some x

-- The container with an address in the store.
abbrev pub is_container : Store → Option ℕ → Option ℕ
is_container s none = none
is_container s (some a) = elim (find a s) [ none ↦ none | some _ ↦ some a ]

-- An item at the index that is a container takes the thing itself.
unfoldable pub into_item : Store → ℕ → Option ℕ → Option Item → Destination
into_item s this index none = record { cylinder = this; index = index; dest_item = none }
into_item s this index (some i) = elim (is_container s (some i.address)) [
  | none ↦ record { cylinder = this; index = index; dest_item = some i }
  | some sub ↦ record { cylinder = sub; index = none; dest_item = none }
]

-- An index behind the capacity is none.
abbrev pub in_range : Slots → ℕ → Option ℕ
in_range c index = if leb c.max_size index then none else some index

unfoldable pub query_destination : Store → Place → ℕ → Slots → Option ℕ → Destination
unfolding get_thing into_item
query_destination s place this c none = record { cylinder = this; index = none; dest_item = none }
query_destination s place this c (some index) =
    if index == 254
    then elim (is_container s (head place.parents)) [
      | none ↦ record { cylinder = this; index = none; dest_item = none }
      | some up ↦ record { cylinder = up; index = none; dest_item = none }
    ]
    else if index == 255
    then record { cylinder = this; index = none; dest_item = none }
    else into_item s this (in_range c index) (thing_at c (in_range c index))

abbrev pub behind : Option ℕ → ℕ → Bool
behind none n = false
behind (some k) n = leb n k

-- __addThing of an item.
unfoldable pub add_thing : ℕ → Option ℕ → Item → Slots → Slots
add_thing this index i c =
    if behind index c.max_size
    then c
    else record c { itemlist = set_parent i (some this) ∷ c.itemlist }

unfoldable pub update_thing : ItemTable → ℕ → ℕ → Slots → Slots
unfolding get_index_of_thing change_item set_item_count_or_subtype
update_thing items a count c = if is_none (get_index_of_thing c a) then c else record c {
  itemlist = change_item a (λ i. set_item_count_or_subtype items i count) c.itemlist;
}

-- The list in __replaceThing, whose first index is `n`, and the item that is taken off.
unfoldable pub replace_from : ℕ → ℕ → Item → List Item → List Item
replace_from n index new [] = []
replace_from n index new (i ∷ is) =
    let rest = replace_from (n + 1) index new is in if n == index then new ∷ is else i ∷ rest

unfoldable pub replace_thing : ℕ → ℕ → Item → Slots → Slots
unfolding replace_from
replace_thing this index new c = record c {
  itemlist = replace_from 0 index (set_parent new (some this)) c.itemlist;
}

-- __removeThing of the item `i`.
unfoldable pub remove_thing : ItemTable → Item → ℕ → Slots → Slots
unfolding get_index_of_thing erase_item change_item set_item_count new_count
remove_thing items i count c =
    if is_none (get_index_of_thing c i.address)
    then c
    else if (items i.id).stackable && not (count == i.count)
    then record c {
      itemlist = change_item i.address (λ j. set_item_count j (new_count j.count count)) c.itemlist;
    }
    else record c { itemlist = erase_item i.address c.itemlist }

unfoldable pub internal_add_thing : ℕ → Item → Slots → Slots
internal_add_thing this i c = record c { itemlist = set_parent i (some this) ∷ c.itemlist }

unfoldable pub get_item_type_count : ItemTable → Slots → ℕ → Option ℕ → Bool → ℕ
unfolding sum_matching
get_item_type_count items c id sub flag = sum_matching items id sub flag c.itemlist % 2 ^ 32

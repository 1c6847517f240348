-- ===== src/Game.antt =====
-- How the class Game of source/game.cpp adds, moves and removes items, where the cylinders are
-- containers. What it sends to the clients and the end of an item's life are left out.
use evolution078ots.Prelude.{
  ℕ, zero, suc, ◌+◌, ◌-◌, ◌%◌, ◌^◌, min, Bool, true, false, not, ◌&&◌, ◌||◌, Option, none, some,
  List, [], ◌∷◌, ltb, ◌==◌, if◌then◌else◌,
}
use evolution078ots.Prelude.Table.{find}
use evolution078ots.Item.{
  Item, ItemType, ItemTable, ReturnValue, no_error, not_possible, is_ok, is_not_moveable,
  create_item,
}
use evolution078ots.Container.Slots.{
  Slots, Store, Flags, Place, Destination, change_slots, query_add, query_max_count, query_remove,
  query_destination, add_thing, update_thing, remove_thing,
}
use evolution078ots.Tile.{is_at}
pub mod Totals
pub mod Arrivals
pub mod Destinations
pub mod Conservation
pub mod Addition
pub mod Removal
pub mod Capacity
mod Examples

-- `n`: what goes onto the stack at the destination.
unfoldable pub merged : Option Item → Item → ℕ → ℕ
merged none i m = 0
merged (some dest) i m = if dest.id == i.id then min ((100 + 2 ^ 32 - dest.count) % 2 ^ 32) m else 0

unfoldable pub merge : ItemTable → Option Item → Item → ℕ → Slots → Slots
unfolding update_thing
merge items none i n c = c
merge items (some dest) i n c =
    if dest.id == i.id then update_thing items dest.address (dest.count + n) c else c

-- What arrives of `m` of the item: a part goes onto a stack, and a new item has the rest. `whole` tells
-- for the rest whether the item itself may be used.
unfoldable pub arrive : ItemTable → Destination → Item → ℕ → Bool → ℕ → Slots → Slots
unfolding merged merge add_thing create_item
arrive items to i m whole fresh c =
    let n = merged to.dest_item i m in
    let c' = merge items to.dest_item i n c in
    if (items i.id).stackable
    then (if m - n == 0
        then c'
        else add_thing to.cylinder to.index
            (if whole && (m - n == i.count) then i else create_item items fresh i.id (m - n)) c')
    else add_thing to.cylinder to.index i c

abbrev pub amount : ItemTable → Item → ℕ → ℕ → ℕ
amount items i count most = if (items i.id).stackable then min count most else most

-- internalMoveItem from the check that the item can be removed on: `most` and `ret` are maxQueryCount
-- and retMaxCount.
unfoldable pub move_checked :
    ItemTable
    → Store
    → ℕ
    → Slots
    → Destination
    → Item
    → ℕ
    → ℕ
    → ReturnValue
    → ℕ
    → Store × ReturnValue
unfolding query_remove change_slots remove_thing arrive
move_checked items s from c to i count most ret fresh =
    let m = amount items i count most in
    let removable = query_remove items c i m in
    if not (is_ok removable) then (s, removable) else (
      change_slots to.cylinder (arrive items to i m false fresh)
          (change_slots from (remove_thing items i m) s),
      if (items i.id).stackable && ltb most count then ret else no_error,
    )

-- internalMoveItem with the destination.
unfoldable pub move_to :
    ItemTable
    → (ℕ → Place)
    → Store
    → ℕ
    → Slots
    → Destination
    → Slots
    → Item
    → ℕ
    → Flags
    → ℕ
    → Store × ReturnValue
unfolding query_add query_max_count move_checked
move_to items place s from c to d i count flags fresh =
    if is_at to.dest_item i.address
    then (s, no_error)
    else let addable = query_add items (place to.cylinder) to.cylinder d to.index i flags in
      if not (is_ok addable)
      then (s, addable)
      else let (most, ret) = query_max_count items d to.index i count flags in
        if not (is_ok ret) && (most == 0)
        then (s, ret)
        else move_checked items s from c to i count most ret fresh

-- internalMoveItem between containers. No __queryAdd of a container, a tile or a player for its child
-- asks for an exchange.
unfoldable pub internal_move_item :
    ItemTable → (ℕ → Place) → Store → ℕ → ℕ → Option ℕ → Item → ℕ → Flags → ℕ → Store × ReturnValue
unfolding query_destination move_to
internal_move_item items place s from cylinder index i count flags fresh = elim (find from s) [
  | none ↦ (s, not_possible)
  | some c ↦ elim (find cylinder s) [
    | none ↦ (s, not_possible)
    | some k ↦
        let to = query_destination s (place cylinder) cylinder k index in
        elim (find to.cylinder s) [
          | none ↦ (s, not_possible)
          | some d ↦ move_to items place s from c to d i count flags fresh
        ]
  ]
]

-- internalAddItem with the destination.
unfoldable pub add_to :
    ItemTable
    → (ℕ → Place)
    → Store
    → Destination
    → Slots
    → Item
    → Flags
    → Bool
    → ℕ
    → Store × ReturnValue
unfolding query_add query_max_count arrive change_slots
add_to items place s to d i flags test fresh =
    let addable = query_add items (place to.cylinder) to.cylinder d to.index i flags in
    if not (is_ok addable)
    then (s, addable)
    else let (most, ret) = query_max_count items d to.index i i.count flags in
      if not (is_ok ret) then (s, ret) else if test then (s, no_error) else (
        change_slots to.cylinder (arrive items to i (amount items i i.count most) true fresh) s,
        no_error,
      )

-- internalAddItem to a container.
unfoldable pub internal_add_item :
    ItemTable → (ℕ → Place) → Store → ℕ → Option ℕ → Item → Flags → Bool → ℕ → Store × ReturnValue
unfolding query_destination add_to
internal_add_item items place s cylinder index i flags test fresh = elim (find cylinder s) [
  | none ↦ (s, not_possible)
  | some k ↦
      let to = query_destination s (place cylinder) cylinder k index in
      elim (find to.cylinder s) [
        | none ↦ (s, not_possible)
        | some d ↦ add_to items place s to d i flags test fresh
      ]
]

abbrev or_all : Option ℕ → Item → ℕ
or_all none i = i.count
or_all (some n) i = n

-- internalRemoveItem of `n` of an item from its parent; `can_remove` is what canRemove answers.
unfoldable pub remove_from :
    ItemTable → Store → ℕ → Slots → Item → ℕ → Bool → Bool → Store × ReturnValue
unfolding query_remove remove_thing change_slots
remove_from items s a c i n can_remove test =
    let removable = query_remove items c i n in
    if not (is_ok removable) && not (is_not_moveable removable)
    then (s, removable)
    else if not can_remove
    then (s, not_possible)
    else if test
    then (s, no_error)
    else (change_slots a (remove_thing items i n) s, no_error)

-- internalRemoveItem from a container; a count of -1 is `none`.
unfoldable pub internal_remove_item :
    ItemTable → Store → Item → Option ℕ → Bool → Bool → Store × ReturnValue
unfolding remove_from
internal_remove_item items s i count can_remove test = elim i.parent [
  | none ↦ (s, not_possible)
  | some a ↦ elim (find a s) [
    | none ↦ (s, not_possible)
    | some c ↦ remove_from items s a c i (or_all count i) can_remove test
  ]
]

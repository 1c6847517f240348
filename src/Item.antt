-- ===== src/Item.antt =====
-- The class Item of source/item.cpp as far as the places where items lie use it: its type in the table
-- Item::items (source/items.h), its count and its subtype.
use evolution078ots.Prelude.{
  ℕ, ◌+◌, ◌-◌, ◌%◌, ◌^◌, Bool, true, false, not, ◌&&◌, ◌||◌, Option, none, some, List, [], ◌∷◌,
  ◌==◌, ltb, if◌then◌else◌,
}
pub mod Attributes

-- The entry of an item's type.
pub record ItemType : Type 0 where
  pub is_ground_tile : Bool
  pub always_on_top : Bool
  pub is_splash : Bool
  pub is_magic_field : Bool
  pub is_fluid_container : Bool
  pub is_rune : Bool
  pub stackable : Bool
  pub moveable : Bool
  pub pickupable : Bool
  pub always_on_top_order : ℕ
  pub max_charges : ℕ

-- An item at an address. `parent` is the address of where it lies, NULL as `none`.
pub record Item : Type 0 where
  pub address : ℕ
  pub id : ℕ
  pub count : ℕ
  pub charges : ℕ
  pub fluid : ℕ
  pub unique_id : ℕ
  pub parent : Option ℕ

-- ReturnValue of source/thing.h, as far as the queries of tiles and containers are concerned.
pub data ReturnValue : Type 0 where
  no_error not_possible not_moveable cannot_pickup this_is_impossible need_exchange : ReturnValue
  container_not_enough_room not_enough_capacity not_enough_room : ReturnValue

abbrev pub is_ok : ReturnValue → Bool
is_ok no_error = true
is_ok _ = false

abbrev pub is_not_moveable : ReturnValue → Bool
is_not_moveable not_moveable = true
is_not_moveable _ = false

abbrev pub ItemTable : Type 0
ItemTable = ℕ → ItemType

abbrev pub set_parent : Item → Option ℕ → Item
set_parent i p = record i { parent = p }

abbrev plain_item : ItemTable → ℕ → ℕ → Item
plain_item items address id = record {
  address = address;
  id = id;
  count = 1;
  charges = (items id).max_charges % 256;
  fluid = 0;
  unique_id = 0;
  parent = none;
}

-- CreateItem of a type that is in the table and is no container, at a fresh address.
unfoldable pub create_item : ItemTable → ℕ → ℕ → ℕ → Item
create_item items address id count =
    let it = items id in
    if it.is_fluid_container || it.is_splash
    then record (plain_item items address id) { fluid = count % 256 }
    else if it.stackable
    then record (plain_item items address id) { count = count % 256 }
    else if not (it.max_charges == 0) && not (count == 0)
    then record (plain_item items address id) { charges = count % 256 }
    else plain_item items address id

-- The count is a byte.
unfoldable pub set_item_count : Item → ℕ → Item
set_item_count i n = record i { count = n % 256 }

unfoldable pub set_item_count_or_subtype : ItemTable → Item → ℕ → Item
set_item_count_or_subtype items i n =
    let it = items i.id in
    if it.is_fluid_container || it.is_splash
    then record i { fluid = n % 256 }
    else if not (it.max_charges == 0)
    then record i { charges = n % 256 }
    else record i { count = n % 256 }

unfoldable pub get_item_count_or_subtype : ItemTable → Item → ℕ
get_item_count_or_subtype items i =
    let it = items i.id in
    if it.is_fluid_container || it.is_splash
    then i.fluid
    else if not (i.charges == 0)
    then i.charges
    else i.count

unfoldable pub has_sub_type : ItemTable → Item → Bool
has_sub_type items i =
    let it = items i.id in it.is_fluid_container || (it.is_splash || (it.stackable || it.is_rune))

unfoldable pub get_sub_type : ItemTable → Item → ℕ
get_sub_type items i =
    let it = items i.id in
    if it.is_fluid_container || it.is_splash
    then i.fluid
    else if not (it.max_charges == 0)
    then i.charges
    else 0

-- `std::max(0, (int)(getItemCount() - count))`: the difference is taken in 32 bits without a sign, and
-- then read with one.
unfoldable pub new_count : ℕ → ℕ → ℕ
new_count have count =
    let difference = (have + 2 ^ 32 - count % 2 ^ 32) % 2 ^ 32 in
    if ltb difference (2 ^ 31) then difference else 0

-- The first item with an address in a list, and the list without it or with it changed.
unfoldable pub find_item : ℕ → List Item → Option Item
find_item a [] = none
find_item a (i ∷ list) = let rest = find_item a list in if i.address == a then some i else rest

unfoldable pub erase_item : ℕ → List Item → List Item
erase_item a [] = []
erase_item a (i ∷ list) = let rest = erase_item a list in if i.address == a then list else i ∷ rest

unfoldable pub change_item : ℕ → (Item → Item) → List Item → List Item
change_item a f [] = []
change_item a f (i ∷ list) =
    let rest = change_item a f list in if i.address == a then f i ∷ list else i ∷ rest

-- What __getItemTypeCount asks for; a subtype of -1 is `none`.
unfoldable pub is_of : ItemTable → ℕ → Option ℕ → Item → Bool
unfolding get_sub_type
is_of items id none i = i.id == id
is_of items id (some sub) i = if i.id == id then sub == get_sub_type items i else false

-- What an item counts for there.
unfoldable pub counts_for : ItemTable → Bool → Item → ℕ
counts_for items true i = i.count
counts_for items false i = if (items i.id).is_rune then i.charges else i.count

-- The count, if it is asked for, of one item.
unfoldable pub matching : ItemTable → ℕ → Option ℕ → Bool → Item → ℕ
unfolding is_of counts_for
matching items id sub flag i = if is_of items id sub i then counts_for items flag i else 0

-- The sum over a list of items.
unfoldable pub sum_matching : ItemTable → ℕ → Option ℕ → Bool → List Item → ℕ
unfolding matching
sum_matching items id sub flag [] = 0
sum_matching items id sub flag (i ∷ is) =
    matching items id sub flag i + sum_matching items id sub flag is

-- ===== src/Tile/History.antt =====
-- The changes of a tile one after the other, the change of an item's type by Game::transformItem of
-- source/game.cpp included.
use evolution078ots.Prelude.{
  ℕ, Bool, true, false, not, ◌&&◌, ◌||◌, Option, none, some, List, [], ◌∷◌, ◌==◌, if◌then◌else◌,
}
use evolution078ots.Item.{
  Item, ItemType, ItemTable, set_item_count, set_item_count_or_subtype, get_item_count_or_subtype,
  has_sub_type, change_item,
}
use evolution078ots.Tile.{
  Tile, Thing, item, creature, get_thing, get_index_of_thing, is_none, add_item, internal_add_item,
  remove_item, update_item, change_ground, add_creature, remove_creature, Replaced, done, undefined,
  replace_thing,
}

-- An item that is no container, and neither becomes one, gets another type, and its count or subtype is
-- set; a count of -1 is `none`. How long it lasts is left out.
abbrev set_count : ItemTable → Option ℕ → Item → Item
set_count items none i = i
set_count items (some n) i = set_item_count_or_subtype items i n

unfoldable pub retyped : ItemTable → ℕ → Option ℕ → Item → Item
unfolding has_sub_type set_item_count set_item_count_or_subtype get_item_count_or_subtype
retyped items new count i =
    let j = record i { id = new } in
    let k = if has_sub_type items j then set_count items count j else set_item_count j 1 in
    set_item_count_or_subtype items k (get_item_count_or_subtype items k)

-- transformItem of the item at `a`, of another type, up to the __updateThing.
unfoldable pub transform_item : ItemTable → Tile → ℕ → ℕ → Option ℕ → Tile
unfolding get_index_of_thing change_item change_ground retyped
transform_item items t a new count = if is_none (get_index_of_thing t a) then t else record t {
  ground = change_ground a (retyped items new count) t.ground;
  top_items = change_item a (retyped items new count) t.top_items;
  down_items = change_item a (retyped items new count) t.down_items;
}

pub data Change : Type 0 where
  add : Item → Change
  load : Item → Change
  take_off : ℕ → ℕ → Change
  update : ℕ → ℕ → Change
  creature_in : ℕ → Change
  creature_out : ℕ → Change
  replace : ℕ → Item → Change
  transform : ℕ → ℕ → Option ℕ → Change

-- Where a replacement has no defined behaviour, `keeps` is false.
abbrev pub replaced_tile : Tile → Replaced → Tile
replaced_tile t (done t' old) = t'
replaced_tile t undefined = t

unfoldable pub change : ItemTable → Tile → Change → Tile
unfolding add_item internal_add_item remove_item update_item add_creature remove_creature
    replace_thing transform_item
change items t (add i) = (add_item items t i).0
change items t (load i) = internal_add_item items t i
change items t (take_off a count) = remove_item items t a count
change items t (update a count) = update_item items t a count
change items t (creature_in a) = add_creature t a
change items t (creature_out a) = remove_creature t a
change items t (replace index new) = replaced_tile t (replace_thing t index new)
change items t (transform a new count) = transform_item items t a new count

abbrev same : Bool → Bool → Bool
same true b = b
same false b = not b

-- Two types have the same layer, and on top the same order.
abbrev pub same_layer : ItemType → ItemType → Bool
same_layer x y =
    same x.is_ground_tile y.is_ground_tile
    && (same x.always_on_top y.always_on_top
        && (not x.always_on_top || (x.always_on_top_order == y.always_on_top_order)))

abbrev pub fits_in : ItemTable → Option Thing → Item → Bool
fits_in items none new = false
fits_in items (some (creature a)) new = true
fits_in items (some (item old)) new = same_layer (items old.id) (items new.id)

-- The items at an address keep their layer when they are changed.
abbrev pub stays : ItemTable → ℕ → (Item → Item) → Item → Bool
stays items a f i = not (i.address == a) || same_layer (items i.id) (items (f i).id)

unfoldable pub all_stay : ItemTable → ℕ → (Item → Item) → List Item → Bool
all_stay items a f [] = true
all_stay items a f (i ∷ is) = stays items a f i && all_stay items a f is

abbrev pub ground_stays : ItemTable → ℕ → (Item → Item) → Option Item → Bool
ground_stays items a f none = true
ground_stays items a f (some g) = stays items a f g

abbrev pub tile_stays : ItemTable → ℕ → (Item → Item) → Tile → Bool
tile_stays items a f t =
    ground_stays items a f t.ground
    && (all_stay items a f t.top_items && all_stay items a f t.down_items)

-- A replacement is one of a thing on the tile, by an item of the same layer, and a
-- transformation is into a type of the same layer.
unfoldable pub keeps : ItemTable → Tile → Change → Bool
unfolding get_thing retyped all_stay
keeps items t (replace index new) = fits_in items (get_thing t index) new
keeps items t (transform a new count) = tile_stays items a (retyped items new count) t
keeps items t _ = true

unfoldable pub run : ItemTable → Tile → List Change → Tile
unfolding change
run items t [] = t
run items t (c ∷ cs) = run items (change items t c) cs

unfoldable pub keep_all : ItemTable → Tile → List Change → Bool
unfolding keeps change
keep_all items t [] = true
keep_all items t (c ∷ cs) = keeps items t c && keep_all items (change items t c) cs

unfoldable pub new_tile : ℕ → Tile
new_tile a = record { address = a; ground = none; top_items = []; creatures = []; down_items = [] }

-- ===== src/Tile/Examples.antt =====
-- The theorems on tiles at a grass square with a puddle, a creature, some coins and a bag.
use evolution078ots.Prelude.{
  ℕ, ◌+◌, ◌%◌, ◌^◌, true, false, none, some, List, [], ◌∷◌, ◌==◌, ltb, ◌≡◌, ◌↔◌, refl,
}
use evolution078ots.Prelude.Int.{◌-ℤ◌}
use evolution078ots.Item.{Item, ItemTable, sum_matching}
use evolution078ots.Tile.{Tile, get_index_of_thing, get_thing, replace_thing}
use evolution078ots.Tile.Stack.{address_of, distinct, get_index_of_thing-get_thing}
use evolution078ots.Tile.History.{
  Change, add, load, take_off, creature_in, replace, transform, new_tile, run, keep_all,
}
use evolution078ots.Tile.Layers.{IsLayered}
use evolution078ots.Tile.Changes.{run-IsLayered}
use evolution078ots.Tile.Replacement.{outcome, replace_thing_lem}
use evolution078ots.Tile.Queries.{get_item_type_count}
use evolution078ots.Tile.Counting.{on_ground_matching, get_item_type_count_lem}

-- 1 is grass, 2 a puddle, 3 coins, 4 a bag, 5 a fire field.
abbrev items : ItemTable
items id = record {
  is_ground_tile = id == 1;
  always_on_top = id == 2;
  is_splash = id == 2;
  is_magic_field = id == 5;
  is_fluid_container = false;
  is_rune = false;
  stackable = id == 3;
  moveable = ltb 2 id;
  pickupable = ltb 2 id;
  always_on_top_order = id;
  max_charges = 0;
}

abbrev thing : ℕ → ℕ → ℕ → Item
thing address id count = record {
  address = address;
  id = id;
  count = count;
  charges = 0;
  fluid = 0;
  unique_id = 0;
  parent = none;
}

abbrev changes : List Change
changes =
    load (thing 10 1 1)
    ∷ add (thing 11 2 1)
    ∷ add (thing 12 3 40)
    ∷ creature_in 77
    ∷ add (thing 13 4 1)
    ∷ take_off 12 15
    ∷ add (thing 14 2 1)
    ∷ replace 0 (thing 15 1 1)
    ∷ transform 13 6 none
    ∷ []

abbrev square : Tile
square = record {
  address = 5;
  ground = some (thing 10 1 1);
  top_items = thing 14 2 1 ∷ [];
  creatures = 77 ∷ [];
  down_items = thing 13 4 1 ∷ thing 12 3 25 ∷ [];
}

get_index_of_thing-get_thing_example :
    (get_index_of_thing square 12 ≡ some 4) ↔ (address_of (get_thing square 4) ≡ some 12)
unfolding distinct
get_index_of_thing-get_thing_example = get_index_of_thing-get_thing square 12 4 refl

run-IsLayered_example : IsLayered items (run items (new_tile 5) changes)
unfolding new_tile keep_all ◌-ℤ◌
run-IsLayered_example = run-IsLayered items 5 changes refl

replace_thing_lem_example :
    replace_thing square 4 (thing 15 4 1) ≡ outcome square.ground square 4 (thing 15 4 1)
replace_thing_lem_example = replace_thing_lem square 4 (thing 15 4 1)

get_item_type_count_lem_example :
    get_item_type_count items square 3 none true
    ≡ some (
        (on_ground_matching items 3 none true square.ground
          + sum_matching items 3 none true square.top_items
          + sum_matching items 3 none true square.down_items)
        % 2 ^ 32)
get_item_type_count_lem_example = get_item_type_count_lem items square 3 none true

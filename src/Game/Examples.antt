-- ===== src/Game/Examples.antt =====
-- The theorems on the moves of items at a backpack that holds coins and a bag with more coins.
use evolution078ots.Prelude.{
  ℕ, ◌+◌, Bool, true, false, not, ◌&&◌, Option, none, some, [], ◌∷◌, ◌==◌, if◌then◌else◌, ◌≡◌, refl,
  arith, Bool-cases, inl, inr,
}
use evolution078ots.Prelude.Table.{find}
use evolution078ots.Item.{Item, ItemTable, is_ok, find_item}
use evolution078ots.Tile.Stack.{is_in, distinct}
use evolution078ots.Container.Slots.{Slots, Store, Flags, Place}
use evolution078ots.Game.{internal_move_item, internal_add_item, internal_remove_item}
use evolution078ots.Game.Totals.{is_plain, value, total}
use evolution078ots.Game.Destinations.{tidy, IsTidy, counts_ok}
use evolution078ots.Game.Conservation.{internal_move_item-total}
use evolution078ots.Game.Addition.{internal_add_item-total}
use evolution078ots.Game.Removal.{internal_remove_item_lem, IsRemoved}
use evolution078ots.Game.Capacity.{fits, IsFitting, internal_move_item-IsFitting}

-- 3 is coins, everything else a thing that does not stack.
abbrev items : ItemTable
items id = record {
  is_ground_tile = false;
  always_on_top = false;
  is_splash = false;
  is_magic_field = false;
  is_fluid_container = false;
  is_rune = false;
  stackable = id == 3;
  moveable = true;
  pickupable = true;
  always_on_top_order = 0;
  max_charges = 0;
}

plain : (k : ℕ) → (items k).stackable ≡ true → is_plain (items k) ≡ true
plain k h = refl

abbrev thing : ℕ → ℕ → ℕ → Option ℕ → Item
thing address id count parent = record {
  address = address;
  id = id;
  count = count;
  charges = 0;
  fluid = 0;
  unique_id = 0;
  parent = parent;
}

abbrev coins : Item
coins = thing 1 3 40 (some 100)

abbrev backpack : Slots
backpack = record { max_size = 3; itemlist = coins ∷ thing 200 4 1 (some 100) ∷ [] }

abbrev bag : Slots
bag = record { max_size = 2; itemlist = thing 2 3 90 (some 200) ∷ [] }

abbrev store : Store
store = (100, backpack) ∷ (200, bag) ∷ []

abbrev place : ℕ → Place
place a =
    if a == 200
    then record { parents = 100 ∷ 7 ∷ []; owner = none }
    else record { parents = 7 ∷ []; owner = none }

abbrev flags : Flags
flags = record { no_limit = false; child_is_owner = false }

unfoldable all_slots : (Slots → Bool) → Store → Bool
all_slots f [] = true
all_slots f ((a, c) ∷ s) = f c && all_slots f s

find-all_slots :
    (f : Slots → Bool) (s : Store)
    → all_slots f s ≡ true
    → (a : ℕ) (c : Slots) → find a s ≡ some c
    → f c ≡ true
unfolding all_slots find
find-all_slots f [] ok a c e = cc
find-all_slots f ((b, d) ∷ s) ok a c e = elim (Bool-cases (a == b)) [
  | inl here ↦ ground (arith, ok, here, e)
  | inr there ↦ find-all_slots f s (ground (arith, ok)) a c (ground (arith, there, e))
]

store-IsTidy : IsTidy store
unfolding distinct is_in counts_ok all_slots
store-IsTidy = find-all_slots tidy store refl

store-IsFitting : IsFitting store
unfolding counts_ok all_slots
store-IsFitting = find-all_slots fits store refl

internal_move_item-total_example :
    total 3 (internal_move_item items place store 100 200 (some 0) coins 25 flags 9).0
    ≡ total 3 store
unfolding find find_item
internal_move_item-total_example =
    internal_move_item-total items plain place store 100 200 (some 0) coins 25 flags 9 3 backpack
      refl refl (omega arith) store-IsTidy

internal_add_item-total_example :
    let after =
      internal_add_item items place store 100 (some 1) (thing 5 3 30 none) flags false 9 in
    (total 3 after.0 ≡ (
      if is_ok after.1 && not false
      then total 3 store + value 3 (thing 5 3 30 none)
      else total 3 store))
    × ((if is_ok after.1 && not false then store else after.0) ≡ store)
internal_add_item-total_example =
    internal_add_item-total items plain place store 100 (some 1) (thing 5 3 30 none) flags false 9 3
      (omega arith) store-IsTidy

internal_remove_item_lem_example :
    IsRemoved items store 100 backpack 200 coins 15 3 false
      (internal_remove_item items store coins (some 15) true false)
unfolding find find_item
internal_remove_item_lem_example =
    internal_remove_item_lem items store coins (some 15) true false 100 200 3 backpack refl refl
      refl (omega arith) refl

internal_move_item-IsFitting_example :
    IsFitting (internal_move_item items place store 100 100 (some 1) coins 25 flags 9).0
unfolding find find_item
internal_move_item-IsFitting_example =
    internal_move_item-IsFitting items place store 100 100 (some 1) coins 25 flags 9 backpack refl
      refl refl store-IsTidy store-IsFitting

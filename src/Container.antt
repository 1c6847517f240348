-- ===== src/Container.antt =====
-- The class Container of source/container.cpp: what a container holds, with everything in it.
use evolution078ots.Prelude.{
  ℕ, zero, suc, ◌+◌, Bool, true, false, Option, none, some, List, [], ◌∷◌, ◌++◌, ◌==◌,
  if◌then◌else◌,
}
pub mod Holding
pub mod Slots
mod Examples

mutual
  -- An item by its address: one that is no container, or one with the items of its list.
  pub data Item : Type 0 where
    thing : ℕ → Item
    container : ℕ → Items → Item

  -- itemlist.
  pub data Items : Type 0 where
    nil : Items
    cons : Item → Items → Items

abbrev pub address : Item → ℕ
address (thing a) = a
address (container a its) = a

-- The lists of items that wait in `listContainer`, and a container found is put behind them.
unfoldable pub push_container : List Items → Item → List Items
push_container queue (thing a) = queue
push_container queue (container a its) = queue ++ its ∷ []

unfoldable mutual
  -- The containers in a list and in them.
  pub containers : Items → ℕ
  containers nil = 0
  containers (cons i its) = containers_in i + containers its

  pub containers_in : Item → ℕ
  containers_in (thing a) = 0
  containers_in (container a its) = suc (containers its)

-- The inner loop of getItemHoldingCount.
unfoldable pub count_items : Items → List Items → ℕ → List Items × ℕ
unfolding push_container
count_items nil queue counter = (queue, counter)
count_items (cons i its) queue counter = count_items its (push_container queue i) (counter + 1)

-- The outer loop; `none` stands for a fuel that ran out.
unfoldable pub count_loop : ℕ → List Items → ℕ → Option ℕ
unfolding count_items
count_loop zero queue counter = none
count_loop (suc fuel) [] counter = some counter
count_loop (suc fuel) (its ∷ queue) counter =
    let (queue', counter') = count_items its queue counter in count_loop fuel queue' counter'

-- A turn for the container itself and for each in it, and the last test.
unfoldable pub get_item_holding_count : Items → Option ℕ
unfolding count_loop containers
get_item_holding_count its = count_loop (containers its + 2) (its ∷ []) 0

-- The inner loop of isHoldingItem: whether the item is in the list, else the containers that wait.
unfoldable pub search_items : ℕ → Items → List Items → Option (List Items)
unfolding push_container
search_items item nil queue = some queue
search_items item (cons i its) queue =
    let rest = search_items item its (push_container queue i) in
    if address i == item then none else rest

unfoldable pub search_loop : ℕ → ℕ → List Items → Option Bool
unfolding search_items
search_loop item zero queue = none
search_loop item (suc fuel) [] = some false
search_loop item (suc fuel) (its ∷ queue) = elim (search_items item its queue) [
  | none ↦ some true
  | some queue' ↦ search_loop item fuel queue'
]

unfoldable pub is_holding_item : ℕ → Items → Option Bool
unfolding search_loop containers
is_holding_item item its = search_loop item (containers its + 2) (its ∷ [])

-- ===== src/Container/Examples.antt =====
-- The theorems about containers at a bag with a bag in it.
use evolution078ots.Prelude.{some, ◌≡◌, refl}
use evolution078ots.Container.{
  Items, nil, cons, thing, container, get_item_holding_count, is_holding_item,
}
use evolution078ots.Container.Holding.{
  all_items, holds, get_item_holding_count_lem, is_holding_item_lem,
}

abbrev bag : Items
bag = cons (container 1 (cons (thing 2) (cons (thing 3) nil))) (cons (thing 4) nil)

get_item_holding_count_lem_example : get_item_holding_count bag ≡ some (all_items bag)
get_item_holding_count_lem_example = get_item_holding_count_lem bag

all_items-bag : all_items bag ≡ 4
unfolding all_items
all_items-bag = refl

is_holding_item_lem_example : is_holding_item 3 bag ≡ some (holds 3 bag)
is_holding_item_lem_example = is_holding_item_lem 3 bag

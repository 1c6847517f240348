-- ===== src/Container/Holding.antt =====
-- The searches by level through nested containers agree with plain recursion over the tree.
use evolution078ots.Prelude.{
  ℕ, zero, suc, ◌+◌, ◌<◌, Bool, true, false, ◌||◌, Option, none, some, List, [], ◌∷◌, ◌==◌, ◌≡◌,
  refl, arith, ap, ◌∙◌, Bool-cases, Option-cases, inl, inr, subst,
}
use evolution078ots.Container.{
  Item, thing, container, Items, nil, cons, address, push_container, containers, containers_in,
  count_items, count_loop, get_item_holding_count, search_items, search_loop, is_holding_item,
}

unfoldable mutual
  -- The items in a list and in the containers of it.
  pub all_items : Items → ℕ
  all_items nil = 0
  all_items (cons i its) = suc (inner_items i) + all_items its

  pub inner_items : Item → ℕ
  inner_items (thing a) = 0
  inner_items (container a its) = all_items its

unfoldable mutual
  -- Whether an item is in a list or in a container of it.
  pub holds : ℕ → Items → Bool
  holds a nil = false
  holds a (cons i its) = (address i == a || inner_holds a i) || holds a its

  pub inner_holds : ℕ → Item → Bool
  inner_holds a (thing b) = false
  inner_holds a (container b its) = holds a its

-- The same for lists that wait.
unfoldable all_waiting : List Items → ℕ
unfolding all_items
all_waiting [] = 0
all_waiting (its ∷ queue) = all_items its + all_waiting queue

unfoldable turns : List Items → ℕ
unfolding containers
turns [] = 0
turns (its ∷ queue) = suc (containers its) + turns queue

unfoldable any_holds : ℕ → List Items → Bool
unfolding holds
any_holds a [] = false
any_holds a (its ∷ queue) = holds a its || any_holds a queue

all_waiting-push_container :
    (queue : List Items) (i : Item)
    → all_waiting (push_container queue i) ≡ all_waiting queue + inner_items i
unfolding all_waiting push_container inner_items
all_waiting-push_container queue (thing a) = omega arith
all_waiting-push_container [] (container a its) = omega arith
all_waiting-push_container (x ∷ queue) (container a its) =
    omega (arith, all_waiting-push_container queue (container a its))

turns-push_container :
    (queue : List Items) (i : Item) → turns (push_container queue i) ≡ turns queue + containers_in i
unfolding turns push_container containers_in
turns-push_container queue (thing a) = omega arith
turns-push_container [] (container a its) = omega arith
turns-push_container (x ∷ queue) (container a its) =
    omega (arith, turns-push_container queue (container a its))

any_holds-push_container :
    (item : ℕ) (queue : List Items) (i : Item)
    → any_holds item (push_container queue i) ≡ any_holds item queue || inner_holds item i
unfolding any_holds push_container inner_holds
any_holds-push_container item queue (thing a) = ground arith
any_holds-push_container item [] (container a its) = ground arith
any_holds-push_container item (x ∷ queue) (container a its) =
    ground (arith, any_holds-push_container item queue (container a its))

count_items_lem :
    (its : Items) (queue : List Items) (counter : ℕ)
    → let out = count_items its queue counter in
      (out.1 + all_waiting out.0 ≡ counter + all_waiting queue + all_items its)
      × (turns out.0 ≡ turns queue + containers its)
unfolding count_items all_items containers
count_items_lem nil queue counter = (omega arith, omega arith)
count_items_lem (cons i its) queue counter =
    let (sum, depth) = count_items_lem its (push_container queue i) (counter + 1) in
    (
      omega (arith, sum, all_waiting-push_container queue i),
      omega (arith, depth, turns-push_container queue i),
    )

count_loop_lem :
    (fuel : ℕ) (queue : List Items) (counter : ℕ)
    → turns queue < fuel
    → count_loop fuel queue counter ≡ some (counter + all_waiting queue)
unfolding count_loop turns all_waiting
count_loop_lem zero queue counter h = absurd (omega arith)
count_loop_lem (suc fuel) [] counter h = ground arith
count_loop_lem (suc fuel) (its ∷ queue) counter h =
    let (queue', counter') = count_items its queue counter in
    let (sum, depth) = count_items_lem its queue counter in
    count_loop_lem fuel queue' counter' (omega (arith, depth, h)) ∙ ap some (omega (arith, sum))

-- getItemHoldingCount ends, and counts each item in the container and in the containers in it once.
pub get_item_holding_count_lem : (its : Items) → get_item_holding_count its ≡ some (all_items its)
unfolding get_item_holding_count all_waiting turns
get_item_holding_count_lem its =
    count_loop_lem (containers its + 2) (its ∷ []) 0 (omega arith) ∙ ap some (omega arith)

-- What a search of one list leaves for the others.
abbrev Searched : ℕ → Items → List Items → Option (List Items) → Type 0
Searched item its queue none = holds item its ≡ true
Searched item its queue (some queue') =
    (any_holds item queue' ≡ any_holds item queue || holds item its)
    × (turns queue' ≡ turns queue + containers its)

Searched-cons :
    (item : ℕ) (i : Item) (its : Items) (queue : List Items) (o : Option (List Items))
    → (address i == item) ≡ false
    → Searched item its (push_container queue i) o
    → Searched item (cons i its) queue o
unfolding holds containers
Searched-cons item i its queue none other h = ground (arith, h, other)
Searched-cons item i its queue (some queue') other h = (
  ground (arith, h.0, other, any_holds-push_container item queue i),
  omega (arith, h.1, turns-push_container queue i),
)

search_items-Searched :
    (item : ℕ) (its : Items) (queue : List Items)
    → Searched item its queue (search_items item its queue)
unfolding search_items holds containers
search_items-Searched item nil queue = (ground arith, omega arith)
search_items-Searched item (cons i its) queue = elim (Bool-cases (address i == item)) [
  | inl found ↦ rw (search_items, found, Searched) (ground (arith, found))
  | inr other ↦
      rw (search_items, other)
        (Searched-cons item i its queue (search_items item its (push_container queue i)) other
          (search_items-Searched item its (push_container queue i)))
]

search_loop_lem :
    (item fuel : ℕ) (queue : List Items)
    → turns queue < fuel
    → search_loop item fuel queue ≡ some (any_holds item queue)
unfolding search_loop turns any_holds
search_loop_lem item zero queue h = absurd (omega arith)
search_loop_lem item (suc fuel) [] h = refl
search_loop_lem item (suc fuel) (its ∷ queue) h =
    elim (Option-cases (search_items item its queue)) [
      | inl e ↦
          let found = subst (Searched item its queue) e (search_items-Searched item its queue) in
          rw (search_loop, e, found) refl
      | inr (queue', e) ↦
          let (held, depth) =
            subst (Searched item its queue) e (search_items-Searched item its queue) in
          rw (search_loop, e)
            (search_loop_lem item fuel queue' (omega (arith, depth, h)) ∙ ap some (held ∙ swap))
    ]
  where
    swap : any_holds item queue || holds item its ≡ holds item its || any_holds item queue
    swap = ground arith

-- isHoldingItem ends, and holds exactly if the item is in the container or in a container in it.
pub is_holding_item_lem :
    (item : ℕ) (its : Items) → is_holding_item item its ≡ some (holds item its)
unfolding is_holding_item any_holds turns
is_holding_item_lem item its =
    search_loop_lem item (containers its + 2) (its ∷ []) (omega arith) ∙ ap some (ground arith)

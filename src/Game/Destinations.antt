-- ===== src/Game/Destinations.antt =====
-- Where a thing goes: an item at the destination lies there, and the index is within the capacity.
use evolution078ots.Prelude.{
  ℕ, ◌+◌, ◌≤◌, Bool, true, false, ◌&&◌, Option, none, some, List, [], ◌∷◌, leb, ◌==◌, ◌≡◌, refl,
  sym, arith, Bool-cases, Option-cases, inl, inr, subst,
}
use evolution078ots.Prelude.Table.{find}
use evolution078ots.Item.{Item, find_item}
use evolution078ots.Tile.{addresses}
use evolution078ots.Tile.Stack.{is_in, distinct}
use evolution078ots.Container.Slots.{
  Slots, Store, Place, Destination, item_from, get_thing, thing_at, is_container, into_item,
  in_range, query_destination, behind, head,
}
use evolution078ots.Game.Arrivals.{Lies}

unfoldable pub counts_ok : List Item → Bool
counts_ok [] = true
counts_ok (i ∷ is) = leb i.count 100 && counts_ok is

-- No item stands twice in a container, and no stack is larger than 100.
abbrev pub tidy : Slots → Bool
tidy c = distinct (addresses c.itemlist) && counts_ok c.itemlist

abbrev pub IsTidy : Store → Type 0
IsTidy s = (a : ℕ) (c : Slots) → find a s ≡ some c → tidy c ≡ true

item_from-is_in :
    (n k : ℕ) (l : List Item) (j : Item)
    → item_from n k l ≡ some j
    → is_in j.address (addresses l) ≡ true
unfolding item_from is_in
item_from-is_in n k [] j e = cc
item_from-is_in n k (i ∷ l) j e = elim (Bool-cases (n == k)) [
  | inl here ↦ ground (arith, here, e)
  | inr there ↦ ground (arith, there, e, item_from-is_in (n + 1) k l j)
]

item_from-find_item :
    (n k : ℕ) (l : List Item) (j : Item)
    → item_from n k l ≡ some j
    → distinct (addresses l) ≡ true
    → find_item j.address l ≡ some j
unfolding item_from find_item distinct
item_from-find_item n k [] j e d = cc
item_from-find_item n k (i ∷ l) j e d = elim (Bool-cases (n == k)) [
  | inl here ↦ ground (arith, here, e)
  | inr there ↦
      ground (arith, there, e, d, item_from-is_in (n + 1) k l j, item_from-find_item (n + 1) k l j)
]

item_from-count :
    (n k : ℕ) (l : List Item) (j : Item)
    → item_from n k l ≡ some j
    → counts_ok l ≡ true
    → j.count ≤ 100
unfolding item_from counts_ok
item_from-count n k [] j e d = cc
item_from-count n k (i ∷ l) j e d = elim (Bool-cases (n == k)) [
  | inl here ↦ ground (arith, here, e, d)
  | inr there ↦ ground (arith, there, e, d, item_from-count (n + 1) k l j)
]

get_thing-item_from :
    (c : Slots) (k : ℕ) (j : Item) → get_thing c k ≡ some j → item_from 0 k c.itemlist ≡ some j
unfolding get_thing
get_thing-item_from c k j e = ground (arith, e)

get_thing-Lies :
    (c : Slots) (k : ℕ) (j : Item) → tidy c ≡ true → get_thing c k ≡ some j → Lies (some j) c
get_thing-Lies c k j t e =
    let at = get_thing-item_from c k j e in
    (
      item_from-find_item 0 k c.itemlist j at (ground (arith, t)),
      item_from-count 0 k c.itemlist j at (ground (arith, t)),
    )

thing_at-Lies : (c : Slots) (o : Option ℕ) → tidy c ≡ true → Lies (thing_at c o) c
thing_at-Lies c none t = tt
thing_at-Lies c (some k) t = elim (Option-cases (get_thing c k)) [
  | inl e ↦ subst (λ o. Lies o c) (sym e) tt
  | inr (j, e) ↦ subst (λ o. Lies o c) (sym e) (get_thing-Lies c k j t e)
]

in_range-behind : (c : Slots) (k : ℕ) → behind (in_range c k) c.max_size ≡ false
in_range-behind c k = ground arith

-- What holds of the item, the index and the container at a destination, if it holds where no index is
-- asked for and at the indices of the container that is asked.
module _ (Q : Option Item → Option ℕ → Slots → Type 0) (any : (d : Slots) → Q none none d) where
  abbrev Leads : Store → Destination → Type 0
  Leads s to = (d : Slots) → find to.cylinder s ≡ some d → Q to.dest_item to.index d

  anywhere : (s : Store) (a : ℕ) → Leads s (record { cylinder = a; index = none; dest_item = none })
  anywhere s a d e = any d

  module _ (s : Store) (this : ℕ) (c : Slots) (here : find this s ≡ some c) where
    only_one : (d : Slots) → find this s ≡ some d → c ≡ d
    only_one d f = cc

    into_item-Leads :
        (index : Option ℕ) (o : Option Item) → Q o index c → Leads s (into_item s this index o)
    unfolding into_item
    into_item-Leads index none q = λ d f. subst (Q none index) (only_one d f) q
    into_item-Leads index (some i) q = elim (Option-cases (is_container s (some i.address))) [
      | inl e ↦ rw (into_item, e) λ d f. subst (Q (some i) index) (only_one d f) q
      | inr (sub, e) ↦ rw (into_item, e) (anywhere s sub)
    ]

    query_destination-Leads :
        (place : Place) (index : Option ℕ)
        → ((k : ℕ) → Q (thing_at c (in_range c k)) (in_range c k) c)
        → Leads s (query_destination s place this c index)
    unfolding query_destination
    query_destination-Leads place none q = anywhere s this
    query_destination-Leads place (some k) q = elim (Bool-cases (k == 254)) [
      | inl up ↦ elim (Option-cases (is_container s (head place.parents))) [
        | inl e ↦ rw (query_destination, up, e) (anywhere s this)
        | inr (a, e) ↦ rw (query_destination, up, e) (anywhere s a)
      ]
      | inr low ↦ elim (Bool-cases (k == 255)) [
        | inl wherever ↦ rw (query_destination, low, wherever) (anywhere s this)
        | inr slot ↦
            rw (query_destination, low, slot)
              (into_item-Leads (in_range c k) (thing_at c (in_range c k)) (q k))
      ]
    ]

-- The item there lies in the container, it is the one at the index, and that is within the capacity.
abbrev pub Landed : Option Item → Option ℕ → Slots → Type 0
Landed o index d = Lies o d × (behind index d.max_size ≡ false) × (o ≡ thing_at d index)

abbrev pub Lands : Store → Destination → Type 0
Lands s to = (d : Slots) → find to.cylinder s ≡ some d → Landed to.dest_item to.index d

pub query_destination-Lands :
    (s : Store) (this : ℕ) (c : Slots)
    → find this s ≡ some c
    → (place : Place) (index : Option ℕ) → tidy c ≡ true
    → Lands s (query_destination s place this c index)
query_destination-Lands s this c here place index t =
    query_destination-Leads Landed (λ d. (tt, refl, refl)) s this c here place index
      λ k. (thing_at-Lies c (in_range c k) t, in_range-behind c k, refl)

-- ===== src/Game/Removal.antt =====
-- What internalRemoveItem of source/game.cpp takes off a container.
use evolution078ots.Prelude.{
  ℕ, ◌+◌, ◌≤◌, ◌<◌, Bool, true, false, not, ◌&&◌, Option, none, some, List, [], ◌==◌, if◌then◌else◌,
  ◌≡◌, refl, sym, ap, ◌∙◌, subst, arith, Bool-cases, inl, inr,
}
use evolution078ots.Prelude.Table.{find}
use evolution078ots.Item.{
  Item, ItemTable, find_item, ReturnValue, no_error, not_possible, is_ok, is_not_moveable,
}
use evolution078ots.Container.Slots.{Slots, Store, change_slots, query_remove, remove_thing}
use evolution078ots.Game.{internal_remove_item, remove_from, or_all}
use evolution078ots.Game.Totals.{value, worth, taken, find-change_slots, remove_thing-worth}

removable_bound :
    (items : ItemTable) (c : Slots) (i : Item) (m : ℕ)
    → not (is_ok (query_remove items c i m)) && not (is_not_moveable (query_remove items c i m))
      ≡ false
    → (items i.id).stackable ≡ true
    → m ≤ i.count
unfolding query_remove
removable_bound items c i m ok stack = ground (arith, ok, stack)

parent_lem :
    (items : ItemTable) (s : Store) (i : Item) (count : Option ℕ) (can_remove test : Bool) (a : ℕ)
    → (c : Slots) → i.parent ≡ some a
    → find a s ≡ some c
    → internal_remove_item items s i count can_remove test
      ≡ remove_from items s a c i (or_all count i) can_remove test
unfolding internal_remove_item
parent_lem items s i count can_remove test a c p e = ground (arith, p, e)

-- The items in the container at an address.
abbrev list_of : Option Slots → List Item
list_of none = []
list_of (some c) = c.itemlist

abbrev pub items_in : ℕ → Store → List Item
items_in a s = list_of (find a s)

-- What internalRemoveItem leaves in the container `a` of the item, in another one `b`, and after a refusal
-- or a test.
abbrev pub IsRemoved :
    ItemTable → Store → ℕ → Slots → ℕ → Item → ℕ → ℕ → Bool → Store × ReturnValue → Type 0
IsRemoved items s a c b i n id test after =
    ((if is_ok after.1 && not test
        then worth id (items_in a after.0) + value id (taken items i n)
        else worth id (items_in a after.0))
      ≡ worth id c.itemlist)
    × (find b after.0 ≡ find b s)
    × ((if is_ok after.1 && not test then s else after.0) ≡ s)

unchanged-IsRemoved :
    (items : ItemTable) (s : Store) (a : ℕ) (c : Slots) (b : ℕ) (i : Item) (n id : ℕ) (test : Bool)
    (r : ReturnValue)
    → find a s ≡ some c
    → (is_ok r && not test) ≡ false
    → IsRemoved items s a c b i n id test (s, r)
unchanged-IsRemoved items s a c b i n id test r e refused = rw (refused, e) (refl, refl, refl)

remove_thing-IsRemoved :
    (items : ItemTable) (s : Store) (a : ℕ) (c : Slots) (b : ℕ) (i : Item) (n id : ℕ)
    → find a s ≡ some c
    → find_item i.address c.itemlist ≡ some i
    → i.count < 256
    → ((items i.id).stackable ≡ true → n ≤ i.count)
    → (b == a) ≡ false
    → IsRemoved items s a c b i n id false (change_slots a (remove_thing items i n) s, no_error)
remove_thing-IsRemoved items s a c b i n id e at small le other = (
  ap (λ l. worth id l + value id (taken items i n)) here
      ∙ remove_thing-worth items id n c i at small le,
  find-change_slots b a (remove_thing items i n) s ∙ rw other refl,
  refl,
)
  where
    found : find a (change_slots a (remove_thing items i n) s) ≡ some (remove_thing items i n c)
    found = find-change_slots a a (remove_thing items i n) s ∙ rw e (ground arith)

    here :
        items_in a (change_slots a (remove_thing items i n) s) ≡ (remove_thing items i n c).itemlist
    here = ap list_of found

remove_from_lem :
    (items : ItemTable) (s : Store) (a : ℕ) (c : Slots) (b : ℕ) (i : Item) (n id : ℕ)
    (can_remove test : Bool)
    → find a s ≡ some c
    → find_item i.address c.itemlist ≡ some i
    → i.count < 256
    → (b == a) ≡ false
    → IsRemoved items s a c b i n id test (remove_from items s a c i n can_remove test)
unfolding remove_from
remove_from_lem items s a c b i n id can_remove test e at small other =
    let r = query_remove items c i n in
    elim (Bool-cases (not (is_ok r) && not (is_not_moveable r))) [
      | inl refused ↦
          rw (remove_from, refused)
            (unchanged-IsRemoved items s a c b i n id test r e
              (failed (is_ok r) (is_not_moveable r) test refused))
      | inr ok ↦ elim (Bool-cases can_remove) [
        | inr fixed ↦
            rw (remove_from, ok, fixed)
              (unchanged-IsRemoved items s a c b i n id test not_possible e refl)
        | inl free ↦ elim (Bool-cases test) [
          | inl tested ↦
              rw (remove_from, ok, free, tested)
                (unchanged-IsRemoved items s a c b i n id true no_error e refl)
          | inr done ↦
              rw (remove_from, ok, free, done)
                (remove_thing-IsRemoved items s a c b i n id e at small
                  (removable_bound items c i n ok) other)
        ]
      ]
    ]
  where
    failed : (x y test : Bool) → not x && not y ≡ true → (x && not test) ≡ false
    failed x y test h = ground (arith, h)

-- internalRemoveItem of an item whose count is a byte, from its parent, a container that it lies in: when
-- it answers that there is no error, and is no test, what the items of each type count in that container
-- falls by the number asked for, which is all of the item for -1 or an item that does not stack, and every
-- other container, one that was taken out included, holds what it held; otherwise every container stays
-- as it was.
pub internal_remove_item_lem :
    (items : ItemTable) (s : Store) (i : Item) (count : Option ℕ) (can_remove test : Bool)
    (a b id : ℕ)
    → (c : Slots) → i.parent ≡ some a
    → find a s ≡ some c
    → find_item i.address c.itemlist ≡ some i
    → i.count < 256
    → (b == a) ≡ false
    → IsRemoved items s a c b i
        (or_all count i)
        id
        test
        (internal_remove_item items s i count can_remove test)
internal_remove_item_lem items s i count can_remove test a b id c p e at small other =
    subst (IsRemoved items s a c b i (or_all count i) id test)
      (sym (parent_lem items s i count can_remove test a c p e))
      (remove_from_lem items s a c b i (or_all count i) id can_remove test e at small other)

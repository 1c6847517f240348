-- ===== src/Game/Totals.antt =====
-- How many items of a type lie in the containers of a store, and how the changes of a container change it.
use evolution078ots.Prelude.{
  ℕ, ◌+◌, ◌%◌, ◌≤◌, ◌<◌, Bool, true, false, not, ◌&&◌, Option, none, some, List, [], ◌∷◌, ◌==◌,
  if◌then◌else◌, ◌≡◌, refl, ap, ◌∙◌, arith, Bool-cases, inl, inr,
}
use evolution078ots.Prelude.Table.{find}
use evolution078ots.Item.{
  Item, ItemType, ItemTable, set_item_count, set_item_count_or_subtype, new_count, find_item,
  erase_item, change_item,
}
use evolution078ots.Tile.{addresses, index_in, is_none}
use evolution078ots.Container.Slots.{
  Slots, Store, change_slots, get_index_of_thing, update_thing, remove_thing, add_thing, behind,
}

-- A type of items that stack has neither a fluid nor charges.
abbrev pub is_plain : ItemType → Bool
is_plain it = not it.is_fluid_container && (not it.is_splash && (it.max_charges == 0))

-- What an item of a type counts.
unfoldable pub value : ℕ → Item → ℕ
value id i = if i.id == id then i.count else 0

unfoldable pub worth : ℕ → List Item → ℕ
unfolding value
worth id [] = 0
worth id (i ∷ is) = value id i + worth id is

-- The sum over all containers of the store, whether one lies in another or nowhere.
unfoldable pub total : ℕ → Store → ℕ
unfolding worth
total id [] = 0
total id ((a, c) ∷ s) = worth id c.itemlist + total id s

module _ (id : ℕ) where
  worth-erase_item :
      (a : ℕ) (l : List Item) (i : Item)
      → find_item a l ≡ some i
      → worth id (erase_item a l) + value id i ≡ worth id l
  unfolding worth erase_item find_item
  worth-erase_item a [] i e = cc
  worth-erase_item a (j ∷ l) i e = elim (Bool-cases (j.address == a)) [
    | inl here ↦ ground (arith, here, e)
    | inr there ↦ ground (arith, there, e, worth-erase_item a l i)
  ]

  worth-change_item :
      (a : ℕ) (f : Item → Item) (l : List Item) (i : Item)
      → find_item a l ≡ some i
      → worth id (change_item a f l) + value id i ≡ worth id l + value id (f i)
  unfolding worth change_item find_item
  worth-change_item a f [] i e = cc
  worth-change_item a f (j ∷ l) i e = elim (Bool-cases (j.address == a)) [
    | inl here ↦ ground (arith, here, e)
    | inr there ↦ ground (arith, there, e, worth-change_item a f l i)
  ]

  pub total-change_slots :
      (k : ℕ) (f : Slots → Slots) (s : Store) (c : Slots)
      → find k s ≡ some c
      → total id (change_slots k f s) + worth id c.itemlist ≡ total id s + worth id (f c).itemlist
  unfolding total change_slots find
  total-change_slots k f [] c e = cc
  total-change_slots k f ((j, d) ∷ s) c e = elim (Bool-cases (k == j)) [
    | inl here ↦ ground (arith, here, e)
    | inr there ↦ ground (arith, there, e, total-change_slots k f s c)
  ]

-- The containers after a change.
pub find-change_slots :
    (i k : ℕ) (f : Slots → Slots) (s : Store)
    → find i (change_slots k f s)
      ≡ (if i == k then (elim (find i s) [ none ↦ none | some c ↦ some (f c) ]) else find i s)
unfolding find change_slots
find-change_slots i k f [] = ground arith
find-change_slots i k f ((j, c) ∷ s) = ground (arith, find-change_slots i k f s)

-- An item with an address in a list has an index.
find_item-index_in :
    (a n : ℕ) (l : List Item) (i : Item)
    → find_item a l ≡ some i
    → is_none (index_in a n (addresses l)) ≡ false
unfolding find_item index_in
find_item-index_in a n [] i e = cc
find_item-index_in a n (j ∷ l) i e = elim (Bool-cases (j.address == a)) [
  | inl here ↦ ground (arith, here, e)
  | inr there ↦ ground (arith, there, e, find_item-index_in a (n + 1) l i)
]

pub found-index :
    (c : Slots) (a : ℕ) (i : Item)
    → find_item a c.itemlist ≡ some i
    → is_none (get_index_of_thing c a) ≡ false
unfolding get_index_of_thing
found-index c a i e = find_item-index_in a 0 c.itemlist i e

-- An item is found as before when another is erased or changed.
pub find_item-erase_item :
    (a b : ℕ) (l : List Item) → (b == a) ≡ false → find_item b (erase_item a l) ≡ find_item b l
unfolding find_item erase_item
find_item-erase_item a b [] h = refl
find_item-erase_item a b (j ∷ l) h = ground (arith, h, find_item-erase_item a b l)

pub find_item-change_item :
    (a b : ℕ) (f : Item → Item) (l : List Item)
    → ((j : Item) → (f j).address ≡ j.address)
    → (b == a) ≡ false
    → find_item b (change_item a f l) ≡ find_item b l
unfolding find_item change_item
find_item-change_item a b f [] same h = refl
find_item-change_item a b f (j ∷ l) same h =
    ground (arith, h, same j, find_item-change_item a b f l same)

-- What goes away with `m` of an item.
abbrev pub taken : ItemTable → Item → ℕ → Item
taken items i m = record i { count = if (items i.id).stackable then m else i.count }

value-rest :
    (id m : ℕ) (i : Item)
    → i.count < 256
    → m ≤ i.count
    → value id (set_item_count i (new_count i.count m)) + value id (record i { count = m })
      ≡ value id i
unfolding value set_item_count new_count
value-rest id m i small le = ground (arith, small, le)

pub remove_thing-worth :
    (items : ItemTable) (id m : ℕ) (c : Slots) (i : Item)
    → find_item i.address c.itemlist ≡ some i
    → i.count < 256
    → ((items i.id).stackable ≡ true → m ≤ i.count)
    → worth id (remove_thing items i m c).itemlist + value id (taken items i m)
      ≡ worth id c.itemlist
unfolding remove_thing
remove_thing-worth items id m c i e small le = elim (Bool-cases (items i.id).stackable) [
  | inl stack ↦ elim (Bool-cases (m == i.count)) [
    | inl all ↦
        rw (remove_thing, found-index c i.address i e, stack, all)
          (ap (λ n. worth id (erase_item i.address c.itemlist) + value id (record i { count = n }))
              (ground (arith, all))
            ∙ worth-erase_item id i.address c.itemlist i e)
    | inr part ↦
        let f = λ (j : Item). set_item_count j (new_count j.count m) in
        rw (remove_thing, found-index c i.address i e, stack, part)
          (omega (
            arith,
            worth-change_item id i.address f c.itemlist i e,
            value-rest id m i small (le stack),
          ))
  ]
  | inr single ↦
      rw (remove_thing, found-index c i.address i e, single)
        (worth-erase_item id i.address c.itemlist i e)
]

value-set_count :
    (items : ItemTable) (id n : ℕ) (j : Item)
    → is_plain (items j.id) ≡ true
    → value id (set_item_count_or_subtype items j n) ≡ value id (record j { count = n % 256 })
unfolding value set_item_count_or_subtype
value-set_count items id n j plain = ground (arith, plain)

pub update_thing-worth :
    (items : ItemTable) (id n : ℕ) (c : Slots) (j : Item)
    → find_item j.address c.itemlist ≡ some j
    → is_plain (items j.id) ≡ true
    → worth id (update_thing items j.address n c).itemlist + value id j
      ≡ worth id c.itemlist + value id (record j { count = n % 256 })
unfolding update_thing
update_thing-worth items id n c j e plain =
    rw (update_thing, found-index c j.address j e)
      (worth-change_item id j.address (λ i. set_item_count_or_subtype items i n) c.itemlist j e
        ∙ ap (λ v. worth id c.itemlist + v) (value-set_count items id n j plain))

pub add_thing-worth :
    (id this : ℕ) (index : Option ℕ) (i : Item) (c : Slots)
    → behind index c.max_size ≡ false
    → worth id (add_thing this index i c).itemlist ≡ value id i + worth id c.itemlist
unfolding add_thing worth value
add_thing-worth id this index i c inside = ground (arith, inside)

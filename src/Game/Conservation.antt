-- ===== src/Game/Conservation.antt =====
-- Items are neither lost nor made when the game moves, adds or removes them.
use evolution078ots.Prelude.{
  ℕ, ◌+◌, ◌≤◌, ◌<◌, Bool, true, false, not, ◌&&◌, Option, none, some, ◌==◌, ◌≡◌, refl, ap, ◌∙◌,
  arith, Bool-cases, Option-cases, inl, inr,
}
use evolution078ots.Prelude.Table.{find}
use evolution078ots.Item.{Item, ItemTable, find_item, ReturnValue, is_ok, set_item_count, new_count}
use evolution078ots.Tile.{is_at}
use evolution078ots.Container.Slots.{
  Slots, Store, Flags, Place, Destination, change_slots, query_add, query_max_count, query_remove,
  query_destination, behind, remove_thing,
}
use evolution078ots.Game.{amount, arrive, move_checked, move_to, internal_move_item}
use evolution078ots.Game.Totals.{
  is_plain, value, total, taken, total-change_slots, find-change_slots, remove_thing-worth,
  find_item-erase_item, find_item-change_item,
}
use evolution078ots.Game.Arrivals.{Lies, arrive-worth}
use evolution078ots.Game.Destinations.{IsTidy, Lands, query_destination-Lands}

pub query_remove_bound :
    (items : ItemTable) (c : Slots) (i : Item) (m : ℕ)
    → is_ok (query_remove items c i m) ≡ true
    → (items i.id).stackable ≡ true
    → m ≤ i.count
unfolding query_remove
query_remove_bound items c i m ok stack = ground (arith, ok, stack)

find_item-remove_thing :
    (items : ItemTable) (i : Item) (m b : ℕ) (c : Slots)
    → (b == i.address) ≡ false
    → find_item b (remove_thing items i m c).itemlist ≡ find_item b c.itemlist
unfolding remove_thing set_item_count
find_item-remove_thing items i m b c other = ground (
  arith,
  find_item-erase_item i.address b c.itemlist other,
  find_item-change_item i.address b (λ j. set_item_count j (new_count j.count m)) c.itemlist
      (λ j. refl) other,
)

pub max_size-remove_thing :
    (items : ItemTable) (i : Item) (m : ℕ) (c : Slots)
    → (remove_thing items i m c).max_size ≡ c.max_size
unfolding remove_thing
max_size-remove_thing items i m c = ground arith

-- Another item still lies in a container from which one is removed.
pub Lies-remove_thing :
    (items : ItemTable) (i : Item) (m : ℕ) (c : Slots) (o : Option Item)
    → is_at o i.address ≡ false
    → Lies o c
    → Lies o (remove_thing items i m c)
Lies-remove_thing items i m c none other lies = tt
Lies-remove_thing items i m c (some j) other lies =
    (find_item-remove_thing items i m j.address c other ∙ lies.0, lies.1)

module _ (items : ItemTable) (id : ℕ) where
  removed-total :
      (s : Store) (from : ℕ) (c : Slots) (i : Item) (m : ℕ)
      → find from s ≡ some c
      → find_item i.address c.itemlist ≡ some i
      → i.count < 256
      → ((items i.id).stackable ≡ true → m ≤ i.count)
      → total id (change_slots from (remove_thing items i m) s) + value id (taken items i m)
        ≡ total id s
  removed-total s from c i m e at small le = omega (
    arith,
    total-change_slots id from (remove_thing items i m) s c e,
    remove_thing-worth items id m c i at small le,
  )

module _ (items : ItemTable) (id : ℕ)
    (plain : (k : ℕ) → (items k).stackable ≡ true → is_plain (items k) ≡ true) where
  pub arrived-total :
      (s : Store) (to : Destination) (d : Slots) (i : Item) (m : ℕ) (whole : Bool) (fresh : ℕ)
      → find to.cylinder s ≡ some d
      → Lies to.dest_item d
      → behind to.index d.max_size ≡ false
      → ((items i.id).stackable ≡ true → m < 256)
      → total id (change_slots to.cylinder (arrive items to i m whole fresh) s)
        ≡ total id s + value id (taken items i m)
  arrived-total s to d i m whole fresh e lies inside small = omega (
    arith,
    total-change_slots id to.cylinder (arrive items to i m whole fresh) s d e,
    arrive-worth items id to i m whole fresh d lies inside (plain i.id) small,
  )

  -- The item goes from one place to another, which may be the same container.
  moved-total :
      (s : Store) (from : ℕ) (c : Slots) (to : Destination) (d : Slots) (i : Item) (m fresh : ℕ)
      → find from s ≡ some c
      → find to.cylinder s ≡ some d
      → find_item i.address c.itemlist ≡ some i
      → i.count < 256
      → ((items i.id).stackable ≡ true → m ≤ i.count)
      → Lies to.dest_item d
      → behind to.index d.max_size ≡ false
      → is_at to.dest_item i.address ≡ false
      → total id (
          change_slots to.cylinder
            (arrive items to i m false fresh)
            (change_slots from (remove_thing items i m) s))
        ≡ total id s
  moved-total s from c to d i m fresh e f at small le lies inside other =
      elim (Bool-cases (to.cylinder == from)) [
        | inl same ↦
            arrived-total s1 to (remove_thing items i m d) i m false fresh
              (find-change_slots to.cylinder from (remove_thing items i m) s ∙ rw (same, f) refl)
              (Lies-remove_thing items i m d to.dest_item other lies)
              (ap (behind to.index) (max_size-remove_thing items i m d) ∙ inside)
              (λ stack. omega (arith, le stack, small))
            ∙ gone
        | inr apart ↦
            arrived-total s1 to d i m false fresh
              (find-change_slots to.cylinder from (remove_thing items i m) s ∙ rw (apart, f) refl)
              lies inside (λ stack. omega (arith, le stack, small))
            ∙ gone
      ]
    where
      s1 : Store
      s1 = change_slots from (remove_thing items i m) s

      gone : total id s1 + value id (taken items i m) ≡ total id s
      gone = removed-total items id s from c i m e at small le

  move_checked-total :
      (s : Store) (from : ℕ) (c : Slots) (to : Destination) (d : Slots) (i : Item)
      → (count most : ℕ) (ret : ReturnValue) (fresh : ℕ) → find from s ≡ some c
      → find to.cylinder s ≡ some d
      → find_item i.address c.itemlist ≡ some i
      → i.count < 256
      → Lands s to
      → is_at to.dest_item i.address ≡ false
      → total id (move_checked items s from c to i count most ret fresh).0 ≡ total id s
  unfolding move_checked
  move_checked-total s from c to d i count most ret fresh e f at small lands other =
      let m = amount items i count most in
      elim (Bool-cases (is_ok (query_remove items c i m))) [
        | inr refused ↦ rw (move_checked, refused) refl
        | inl ok ↦
            rw (move_checked, ok)
              (moved-total s from c to d i m fresh e f at small (query_remove_bound items c i m ok)
                (lands d f).0 (lands d f).1 other)
      ]

  move_to-total :
      (place : ℕ → Place) (s : Store) (from : ℕ) (c : Slots) (to : Destination) (d : Slots)
      (i : Item)
      → (count : ℕ) (flags : Flags) (fresh : ℕ) → find from s ≡ some c
      → find to.cylinder s ≡ some d
      → find_item i.address c.itemlist ≡ some i
      → i.count < 256
      → Lands s to
      → total id (move_to items place s from c to d i count flags fresh).0 ≡ total id s
  unfolding move_to
  move_to-total place s from c to d i count flags fresh e f at small lands =
      let query = query_max_count items d to.index i count flags in
      elim (Bool-cases (is_at to.dest_item i.address)) [
        | inl same ↦ rw (move_to, same) refl
        | inr other ↦
            elim (Bool-cases
              (is_ok (query_add items (place to.cylinder) to.cylinder d to.index i flags))) [
                | inr refused ↦ rw (move_to, other, refused) refl
                | inl ok ↦ elim (Bool-cases (not (is_ok query.1) && (query.0 == 0))) [
                  | inl full ↦ rw (move_to, other, ok, full) refl
                  | inr room ↦
                      rw (move_to, other, ok, room)
                        (move_checked-total s from c to d i count query.0 query.1 fresh e f at small
                          lands other)
                ]
              ]
      ]

module _ (items : ItemTable)
    (plain : (k : ℕ) → (items k).stackable ≡ true → is_plain (items k) ≡ true) where
  -- internalMoveItem between containers, be they the same, one within the other or apart: whatever it
  -- answers, the items of each type count as many after it as before. The item lies in the container it
  -- is taken from, no item stands twice in a container, no stack is larger than 100, and the types of
  -- items that stack have neither fluids nor charges.
  pub internal_move_item-total :
      (place : ℕ → Place) (s : Store) (from cylinder : ℕ) (index : Option ℕ) (i : Item)
      → (count : ℕ) (flags : Flags) (fresh id : ℕ) (c : Slots) → find from s ≡ some c
      → find_item i.address c.itemlist ≡ some i
      → i.count < 256
      → IsTidy s
      → total id (internal_move_item items place s from cylinder index i count flags fresh).0
        ≡ total id s
  unfolding internal_move_item
  internal_move_item-total place s from cylinder index i count flags fresh id c e at small tidy =
      elim (Option-cases (find cylinder s)) [
        | inl missing ↦ rw (internal_move_item, e, missing) refl
        | inr (k, g) ↦
            let to = query_destination s (place cylinder) cylinder k index in
            elim (Option-cases (find to.cylinder s)) [
              | inl missing ↦ rw (internal_move_item, e, g, missing) refl
              | inr (d, f) ↦
                  rw (internal_move_item, e, g, f)
                    (move_to-total items id plain place s from c to d i count flags fresh e f at
                      small
                      (query_destination-Lands s cylinder k g (place cylinder) index
                        (tidy cylinder k g)))
            ]
      ]

-- ===== src/Game/Arrivals.antt =====
-- What arrives at a destination: a stack that grows, a new item, or the item itself.
use evolution078ots.Prelude.{
  ℕ, ◌+◌, ◌-◌, ◌%◌, ◌^◌, ◌≤◌, ◌<◌, min, Bool, true, false, ◌&&◌, Option, none, some, ◌==◌, ==_iff,
  if◌then◌else◌, ◌≡◌, refl, ap, ◌∙◌, arith, Bool-cases, inl, inr,
}
use evolution078ots.Item.{Item, ItemTable, find_item, create_item}
use evolution078ots.Container.Slots.{Slots, Destination, update_thing, add_thing, behind}
use evolution078ots.Game.{merged, merge, arrive}
use evolution078ots.Game.Totals.{is_plain, value, worth, taken, update_thing-worth, add_thing-worth}

-- The item at the destination lies there, and is a stack of 100 at most.
abbrev pub Lies : Option Item → Slots → Type 0
Lies none c = Unit
Lies (some j) c = (find_item j.address c.itemlist ≡ some j) × (j.count ≤ 100)

max_size-merge :
    (items : ItemTable) (o : Option Item) (i : Item) (n : ℕ) (c : Slots)
    → (merge items o i n c).max_size ≡ c.max_size
unfolding merge update_thing
max_size-merge items none i n c = refl
max_size-merge items (some j) i n c = ground arith

merged_le : (o : Option Item) (i : Item) (m : ℕ) → merged o i m ≤ m
unfolding merged
merged_le none i m = omega arith
merged_le (some j) i m = ground arith

module _ (items : ItemTable) (id : ℕ) where
  merge-worth :
      (o : Option Item) (i : Item) (m : ℕ) (c : Slots)
      → Lies o c
      → is_plain (items i.id) ≡ true
      → worth id (merge items o i (merged o i m) c).itemlist
        ≡ worth id c.itemlist + value id (record i { count = merged o i m })
  unfolding merge merged value
  merge-worth none i m c lies plain = ground arith
  merge-worth (some j) i m c lies plain = elim (Bool-cases (j.id == i.id)) [
    | inr other ↦ ground (arith, other)
    | inl same ↦ ground (
      arith,
      same,
      plain,
      lies.1,
      update_thing-worth items id (j.count + min ((100 + 2 ^ 32 - j.count) % 2 ^ 32) m) c j lies.0,
    )
  ]

  -- The new item for the rest of a stack.
  create_item-value :
      (fresh k : ℕ) (i : Item)
      → (items i.id).stackable ≡ true
      → is_plain (items i.id) ≡ true
      → k < 256
      → value id (create_item items fresh i.id k) ≡ value id (record i { count = k })
  unfolding create_item value
  create_item-value fresh k i stack plain small = ground (arith, stack, plain, small)

  rest-value :
      (fresh k : ℕ) (whole : Bool) (i : Item)
      → (items i.id).stackable ≡ true
      → is_plain (items i.id) ≡ true
      → k < 256
      → value id (if whole && (k == i.count) then i else create_item items fresh i.id k)
        ≡ value id (record i { count = k })
  unfolding value
  rest-value fresh k whole i stack plain small = elim (Bool-cases (whole && (k == i.count))) [
    | inl all ↦ rw all (ground (arith, all))
    | inr part ↦ rw part (create_item-value fresh k i stack plain small)
  ]

  value-sum :
      (i : Item) (n m : ℕ)
      → n ≤ m
      → value id (record i { count = n }) + value id (record i { count = m - n })
        ≡ value id (record i { count = m })
  unfolding value
  value-sum i n m le = ground (arith, le)

  value-zero : (i : Item) → value id (record i { count = 0 }) ≡ 0
  unfolding value
  value-zero i = ground arith

  taken_stack :
      (i : Item) (m : ℕ)
      → (items i.id).stackable ≡ true
      → value id (taken items i m) ≡ value id (record i { count = m })
  unfolding value
  taken_stack i m stack = ground (arith, stack)

  pub arrive_rest :
      (to : Destination) (i : Item) (m : ℕ) (whole : Bool) (fresh : ℕ) (c : Slots)
      → let n = merged to.dest_item i m in
        (items i.id).stackable ≡ true
        → (m - n == 0) ≡ false
        → arrive items to i m whole fresh c
          ≡ add_thing to.cylinder to.index
              (if whole && (m - n == i.count) then i else create_item items fresh i.id (m - n))
              (merge items to.dest_item i n c)
  unfolding arrive
  arrive_rest to i m whole fresh c stack part = ground (arith, stack, part)

  pub arrive-worth :
      (to : Destination) (i : Item) (m : ℕ) (whole : Bool) (fresh : ℕ) (c : Slots)
      → Lies to.dest_item c
      → behind to.index c.max_size ≡ false
      → ((items i.id).stackable ≡ true → is_plain (items i.id) ≡ true)
      → ((items i.id).stackable ≡ true → m < 256)
      → worth id (arrive items to i m whole fresh c).itemlist
        ≡ worth id c.itemlist + value id (taken items i m)
  unfolding arrive
  arrive-worth to i m whole fresh c lies inside plain small =
      elim (Bool-cases (items i.id).stackable) [
        | inr single ↦
            rw (arrive, single) (add_thing-worth id to.cylinder to.index i c inside ∙ omega arith)
        | inl stack ↦
            let n = merged to.dest_item i m in
            let c' = merge items to.dest_item i n c in
            let grown = merge-worth to.dest_item i m c lies (plain stack) in
            let parts = value-sum i n m (merged_le to.dest_item i m) in
            elim (Bool-cases (m - n == 0)) [
              | inl all ↦
                  rw (arrive, stack, all)
                    (omega (
                      arith,
                      grown,
                      parts,
                      value-zero i,
                      ap (λ k. value id (record i { count = k })) ((==_iff (m - n) 0).0 all),
                    ))
              | inr part ↦
                  let rest =
                    if whole && (m - n == i.count)
                    then i
                    else create_item items fresh i.id (m - n) in
                  ap (λ d. worth id d.itemlist) (arrive_rest to i m whole fresh c stack part)
                  ∙ add_thing-worth id to.cylinder to.index rest c'
                      (ap (behind to.index) (max_size-merge items to.dest_item i n c) ∙ inside)
                  ∙ omega (
                    arith,
                    grown,
                    parts,
                    rest-value fresh (m - n) whole i stack (plain stack)
                        (omega (arith, small stack)),
                    taken_stack i m stack,
                  )
            ]
      ]

-- ===== src/Game/Capacity.antt =====
-- A container is never overfull, and a stack never larger than 100, after the game has moved an item.
use evolution078ots.Prelude.{
  ℕ, ◌+◌, ◌-◌, ◌*◌, ◌%◌, ◌^◌, ◌≤◌, ◌<◌, min, Bool, true, false, not, ◌&&◌, Option, none, some, List,
  [], ◌∷◌, length, ltb, ltb→lt, leb, ◌==◌, ==_iff, ◌≡◌, ◌⊎◌, refl, sym, ap, ◌∙◌, subst, arith,
  Bool-cases, Option-cases, inl, inr,
}
use evolution078ots.Prelude.Table.{find}
use evolution078ots.Item.{
  Item, ItemTable, find_item, erase_item, change_item, create_item, set_item_count, new_count,
  set_item_count_or_subtype, ReturnValue, is_ok,
}
use evolution078ots.Tile.{is_at}
use evolution078ots.Container.Slots.{
  Slots, Store, Flags, Place, Destination, change_slots, query_add, query_max_count, query_remove,
  query_destination, remove_thing, update_thing, add_thing, thing_at, fits_at,
}
use evolution078ots.Game.{amount, merged, merge, arrive, move_checked, move_to, internal_move_item}
use evolution078ots.Game.Totals.{find-change_slots}
use evolution078ots.Game.Arrivals.{Lies, arrive_rest}
use evolution078ots.Game.Destinations.{counts_ok, IsTidy, Lands, query_destination-Lands}
use evolution078ots.Game.Conservation.{query_remove_bound, Lies-remove_thing, max_size-remove_thing}

-- No more items than places, and at most 100 in a stack.
abbrev pub fits : Slots → Bool
fits c = leb (length c.itemlist) c.max_size && counts_ok c.itemlist

abbrev pub IsFitting : Store → Type 0
IsFitting s = (a : ℕ) (c : Slots) → find a s ≡ some c → fits c ≡ true

length-erase_item : (a : ℕ) (l : List Item) → length (erase_item a l) ≤ length l
unfolding erase_item
length-erase_item a [] = omega arith
length-erase_item a (i ∷ l) = ground (arith, length-erase_item a l)

length-change_item :
    (a : ℕ) (f : Item → Item) (l : List Item) → length (change_item a f l) ≡ length l
unfolding change_item
length-change_item a f [] = refl
length-change_item a f (i ∷ l) = ground (arith, length-change_item a f l)

counts_ok-erase_item :
    (a : ℕ) (l : List Item) → counts_ok l ≡ true → counts_ok (erase_item a l) ≡ true
unfolding counts_ok erase_item
counts_ok-erase_item a [] h = refl
counts_ok-erase_item a (i ∷ l) h = ground (arith, h, counts_ok-erase_item a l)

counts_ok-change_item :
    (a : ℕ) (f : Item → Item) (l : List Item)
    → ((j : Item) → j.count ≤ 100 → (f j).count ≤ 100)
    → counts_ok l ≡ true
    → counts_ok (change_item a f l) ≡ true
unfolding counts_ok change_item
counts_ok-change_item a f [] le h = refl
counts_ok-change_item a f (i ∷ l) le h = ground (arith, h, le i, counts_ok-change_item a f l le)

find_item-count :
    (a : ℕ) (l : List Item) (i : Item) → counts_ok l ≡ true → find_item a l ≡ some i → i.count ≤ 100
unfolding counts_ok find_item
find_item-count a [] i h e = cc
find_item-count a (j ∷ l) i h e = ground (arith, h, e, find_item-count a l i)

rest_count :
    (j : Item) (m : ℕ)
    → m ≤ 255
    → j.count ≤ 100
    → (set_item_count j (new_count j.count m)).count ≤ 100
unfolding set_item_count new_count
rest_count j m small le = ground (arith, small, le)

stack_room :
    (most_items len stack count : ℕ)
    → stack < 2 ^ 32
    → len ≤ most_items
    → let m = min count (((most_items - len) * 100 + stack) % 2 ^ 32) in
      (m - min stack m == 0) ≡ false → len < most_items
stack_room most_items len stack count small le part = elim (Bool-cases (ltb len most_items)) [
  | inl free ↦ ltb→lt len most_items free
  | inr full ↦ absurd (ground (arith, small, le, part, full))
]

module _ (items : ItemTable) where
  remove_thing-fits :
      (i : Item) (m : ℕ) (c : Slots)
      → ((items i.id).stackable ≡ true → m ≤ 255)
      → fits c ≡ true
      → fits (remove_thing items i m c) ≡ true
  unfolding remove_thing
  remove_thing-fits i m c small ok =
      elim (Bool-cases ((items i.id).stackable && not (m == i.count))) [
        | inl part ↦
            let f = λ (j : Item). set_item_count j (new_count j.count m) in
            let few = small (ground (arith, part)) in
            ground (
              arith,
              part,
              ok,
              length-change_item i.address f c.itemlist,
              counts_ok-change_item i.address f c.itemlist (λ j. rest_count j m few),
            )
        | inr whole ↦ ground (
          arith,
          whole,
          ok,
          length-erase_item i.address c.itemlist,
          counts_ok-erase_item i.address c.itemlist,
        )
      ]

  length-remove_thing :
      (i : Item) (m : ℕ) (c : Slots)
      → length (remove_thing items i m c).itemlist ≤ length c.itemlist
  unfolding remove_thing
  length-remove_thing i m c = ground (
    arith,
    length-change_item i.address (λ (j : Item). set_item_count j (new_count j.count m)) c.itemlist,
    length-erase_item i.address c.itemlist,
  )

  set_count-small :
      (n : ℕ) (j : Item)
      → n ≤ 100
      → j.count ≤ 100
      → (set_item_count_or_subtype items j n).count ≤ 100
  unfolding set_item_count_or_subtype
  set_count-small n j le small = ground (arith, le, small)

  update_thing-fits :
      (a n : ℕ) (c : Slots) → n ≤ 100 → fits c ≡ true → fits (update_thing items a n c) ≡ true
  unfolding update_thing
  update_thing-fits a n c le ok =
      let f = λ (j : Item). set_item_count_or_subtype items j n in
      ground (
        arith,
        ok,
        length-change_item a f c.itemlist,
        counts_ok-change_item a f c.itemlist (λ j. set_count-small n j le),
      )

  merge-fits :
      (o : Option Item) (i : Item) (m : ℕ) (c : Slots)
      → Lies o c
      → fits c ≡ true
      → fits (merge items o i (merged o i m) c) ≡ true
  unfolding merge merged
  merge-fits none i m c lies ok = ok
  merge-fits (some j) i m c lies ok = ground (
    arith,
    ok,
    lies.1,
    update_thing-fits j.address (j.count + min ((100 + 2 ^ 32 - j.count) % 2 ^ 32) m) c,
  )

  size-merge :
      (o : Option Item) (i : Item) (n : ℕ) (c : Slots)
      → (length (merge items o i n c).itemlist ≡ length c.itemlist)
        × ((merge items o i n c).max_size ≡ c.max_size)
  unfolding merge update_thing
  size-merge none i n c = (refl, refl)
  size-merge (some j) i n c = (
    ground (
      arith,
      length-change_item j.address (λ (k : Item). set_item_count_or_subtype items k (j.count + n))
          c.itemlist,
    ),
    ground arith,
  )

  add_thing-fits :
      (this : ℕ) (index : Option ℕ) (i : Item) (c : Slots)
      → i.count ≤ 100
      → length c.itemlist < c.max_size
      → fits c ≡ true
      → fits (add_thing this index i c) ≡ true
  unfolding add_thing counts_ok
  add_thing-fits this index i c small room ok = ground (arith, small, room, ok)

  created_small : (fresh id k : ℕ) → k ≤ 100 → (create_item items fresh id k).count ≤ 100
  unfolding create_item
  created_small fresh id k le = ground (arith, le)

  -- There is a place for the item, or for what does not go onto the stack.
  abbrev Room : Destination → Slots → Item → ℕ → Type 0
  Room to c i m =
      ((items i.id).stackable ≡ true
        → (m - merged to.dest_item i m == 0) ≡ false
        → length c.itemlist < c.max_size)
      × ((items i.id).stackable ≡ false → length c.itemlist < c.max_size)

  arrive-fits :
      (to : Destination) (i : Item) (m fresh : ℕ) (c : Slots)
      → Lies to.dest_item c
      → i.count ≤ 100
      → ((items i.id).stackable ≡ true → m ≤ i.count)
      → Room to c i m
      → fits c ≡ true
      → fits (arrive items to i m false fresh c) ≡ true
  unfolding arrive
  arrive-fits to i m fresh c lies small le room ok =
      let n = merged to.dest_item i m in
      let c' = merge items to.dest_item i n c in
      let same = size-merge to.dest_item i n c in
      let grown = merge-fits to.dest_item i m c lies ok in
      elim (Bool-cases (items i.id).stackable) [
        | inr single ↦
            rw (arrive, single) (add_thing-fits to.cylinder to.index i c small (room.1 single) ok)
        | inl stack ↦ elim (Bool-cases (m - n == 0)) [
          | inl all ↦ rw (arrive, stack, all) grown
          | inr part ↦
              let free = room.0 stack part in
              subst (λ d. fits d ≡ true)
                (sym (arrive_rest items i.id to i m false fresh c stack part))
                (add_thing-fits to.cylinder to.index (create_item items fresh i.id (m - n)) c'
                  (created_small fresh i.id (m - n) (omega (arith, small, le stack)))
                  (omega (arith, free, same.0, same.1)) grown)
        ]
      ]

  merged_fits : (o : Option Item) (i : Item) (m : ℕ) → merged o i m ≡ min (fits_at o i) m
  unfolding merged fits_at
  merged_fits none i m = omega arith
  merged_fits (some j) i m = ground arith

  fits_at_small : (o : Option Item) (i : Item) → fits_at o i < 2 ^ 32
  unfolding fits_at
  fits_at_small none i = omega arith
  fits_at_small (some j) i = ground arith

  Room-remove_thing :
      (to : Destination) (c : Slots) (i : Item) (m : ℕ)
      → Room to c i m
      → Room to (remove_thing items i m c) i m
  Room-remove_thing to c i m room =
      let shorter = length-remove_thing i m c in
      let same = max_size-remove_thing items i m c in
      (
        λ stack part. omega (arith, room.0 stack part, shorter, same),
        λ single. omega (arith, room.1 single, shorter, same),
      )

  -- After the query there is a place.
  query_max_count-Room :
      (to : Destination) (d : Slots) (i : Item) (count : ℕ) (flags : Flags)
      → flags.no_limit ≡ false
      → fits d ≡ true
      → to.dest_item ≡ thing_at d to.index
      → let query = query_max_count items d to.index i count flags in
        not (is_ok query.1) && (query.0 == 0) ≡ false → Room to d i (amount items i count query.0)
  unfolding query_max_count
  query_max_count-Room to d i count flags limited ok linked room = (
    λ stack part.
        stack_room d.max_size (length d.itemlist) (fits_at (thing_at d to.index) i) count
          (fits_at_small (thing_at d to.index) i) (ground (arith, ok))
          (ground (
            arith,
            limited,
            stack,
            part,
            same (amount items i count (query_max_count items d to.index i count flags).0),
          )),
    λ single. ground (arith, limited, ok, room, single),
  )
    where
      same : (m : ℕ) → merged to.dest_item i m ≡ min (fits_at (thing_at d to.index) i) m
      same m = rw linked (merged_fits (thing_at d to.index) i m)

only_one : (x y : Slots) → some x ≡ some y → x ≡ y
only_one x y h = cc

-- A container of a changed store is that of the store, or the one that was changed.
found_cases :
    (s : Store) (a k : ℕ) (f : Slots → Slots) (c : Slots)
    → find a (change_slots k f s) ≡ some c
    → (find a s ≡ some c) ⊎ ((d : Slots) × (find k s ≡ some d) × (find a s ≡ some d) × (f d ≡ c))
found_cases s a k f c e = elim (Bool-cases (a == k)) [
  | inr other ↦ inl (sym (find-change_slots a k f s ∙ rw other refl) ∙ e)
  | inl same ↦ elim (Option-cases (find a s)) [
    | inl missing ↦ inl (missing ∙ sym (find-change_slots a k f s ∙ rw (same, missing) refl) ∙ e)
    | inr (d, g) ↦
        let changed = sym (find-change_slots a k f s ∙ rw (same, g) refl) ∙ e in
        inr (d, ap (λ j. find j s) (sym ((==_iff a k).0 same)) ∙ g, g, only_one (f d) c changed)
  ]
]

IsFitting-change_slots :
    (s : Store) (k : ℕ) (f : Slots → Slots)
    → IsFitting s
    → ((c : Slots) → find k s ≡ some c → fits (f c) ≡ true)
    → IsFitting (change_slots k f s)
IsFitting-change_slots s k f ok new a c e = elim (found_cases s a k f c e) [
  | inl old ↦ ok a c old
  | inr (d, at, _, same) ↦ subst (λ (x : Slots). fits x ≡ true) same (new d at)
]

few_of : (m : ℕ) (i : Item) → m ≤ i.count → i.count ≤ 100 → m ≤ 255
few_of m i le small = omega (arith, le, small)

module _ (items : ItemTable) (s : Store) (ok : IsFitting s) where
  move_checked-IsFitting :
      (from : ℕ) (c : Slots) (to : Destination) (d : Slots) (i : Item)
      → (count most : ℕ) (ret : ReturnValue) (fresh : ℕ) → find from s ≡ some c
      → find to.cylinder s ≡ some d
      → i.count ≤ 100
      → Lands s to
      → is_at to.dest_item i.address ≡ false
      → Room items to d i (amount items i count most)
      → IsFitting (move_checked items s from c to i count most ret fresh).0
  unfolding move_checked
  move_checked-IsFitting from c to d i count most ret fresh e f small lands other room =
      elim (Bool-cases (is_ok (query_remove items c i m))) [
        | inr refused ↦ rw (move_checked, refused) ok
        | inl removable ↦
            let le = query_remove_bound items c i m removable in
            let few = λ (stack : (items i.id).stackable ≡ true). few_of m i (le stack) small in
            rw (move_checked, removable)
              (IsFitting-change_slots s1 to.cylinder (arrive items to i m false fresh)
                (IsFitting-change_slots s from (remove_thing items i m) ok
                  λ x at. remove_thing-fits items i m x few (ok from x at))
                (arrived le few))
      ]
    where
      m : ℕ
      m = amount items i count most

      s1 : Store
      s1 = change_slots from (remove_thing items i m) s

      arrived :
          ((items i.id).stackable ≡ true → m ≤ i.count)
          → ((items i.id).stackable ≡ true → m ≤ 255)
          → (x : Slots) → find to.cylinder s1 ≡ some x
          → fits (arrive items to i m false fresh x) ≡ true
      arrived le few x at = elim (found_cases s to.cylinder from (remove_thing items i m) x at) [
        | inl old ↦
            subst (λ (y : Slots). fits (arrive items to i m false fresh y) ≡ true)
              (only_one d x (sym f ∙ old))
              (arrive-fits items to i m fresh d (lands d f).0 small le room (ok to.cylinder d f))
        | inr (y, at_from, at_to, same) ↦
            let removed = remove_thing-fits items i m d few (ok to.cylinder d f) in
            subst (λ (z : Slots). fits (arrive items to i m false fresh z) ≡ true)
              (ap (remove_thing items i m) (only_one d y (sym f ∙ at_to)) ∙ same)
              (arrive-fits items to i m fresh (remove_thing items i m d)
                (Lies-remove_thing items i m d to.dest_item other (lands d f).0) small le
                (Room-remove_thing items to d i m room) removed)
      ]

  move_to-IsFitting :
      (place : ℕ → Place) (from : ℕ) (c : Slots) (to : Destination) (d : Slots) (i : Item)
      → (count : ℕ) (flags : Flags) (fresh : ℕ) → flags.no_limit ≡ false
      → find from s ≡ some c
      → find to.cylinder s ≡ some d
      → i.count ≤ 100
      → Lands s to
      → IsFitting (move_to items place s from c to d i count flags fresh).0
  unfolding move_to
  move_to-IsFitting place from c to d i count flags fresh limited e f small lands =
      let query = query_max_count items d to.index i count flags in
      elim (Bool-cases (is_at to.dest_item i.address)) [
        | inl same ↦ rw (move_to, same) ok
        | inr other ↦
            elim (Bool-cases
              (is_ok (query_add items (place to.cylinder) to.cylinder d to.index i flags))) [
                | inr refused ↦ rw (move_to, other, refused) ok
                | inl taken ↦ elim (Bool-cases (not (is_ok query.1) && (query.0 == 0))) [
                  | inl full ↦ rw (move_to, other, taken, full) ok
                  | inr room ↦
                      rw (move_to, other, taken, room)
                        (move_checked-IsFitting from c to d i count query.0 query.1 fresh e f small
                          lands other
                          (query_max_count-Room items to d i count flags limited
                            (ok to.cylinder d f) (lands d f).2 room))
                ]
              ]
      ]

-- internalMoveItem between containers, without the flag that lifts the limits: if no container holds
-- more than it has places for, and no stack is larger than 100, this is so after it, whatever it
-- answers. The item lies in the container it is taken from, and no item stands twice in a container.
pub internal_move_item-IsFitting :
    (items : ItemTable) (place : ℕ → Place) (s : Store) (from cylinder : ℕ) (index : Option ℕ)
    → (i : Item) (count : ℕ) (flags : Flags) (fresh : ℕ) (c : Slots) → flags.no_limit ≡ false
    → find from s ≡ some c
    → find_item i.address c.itemlist ≡ some i
    → IsTidy s
    → IsFitting s
    → IsFitting (internal_move_item items place s from cylinder index i count flags fresh).0
unfolding internal_move_item
internal_move_item-IsFitting items place s from cylinder index i count flags fresh c limited e at
      tidy ok =
    elim (Option-cases (find cylinder s)) [
      | inl missing ↦ rw (internal_move_item, e, missing) ok
      | inr (k, g) ↦
          let to = query_destination s (place cylinder) cylinder k index in
          elim (Option-cases (find to.cylinder s)) [
            | inl missing ↦ rw (internal_move_item, e, g, missing) ok
            | inr (d, f) ↦
                rw (internal_move_item, e, g, f)
                  (move_to-IsFitting items s ok place from c to d i count flags fresh limited e f
                    (find_item-count i.address c.itemlist i (ground (arith, ok from c e)) at)
                    (query_destination-Lands s cylinder k g (place cylinder) index
                      (tidy cylinder k g)))
          ]
    ]

-- ===== src/Game/Addition.antt =====
-- What internalAddItem of source/game.cpp adds to the items, and when it leaves the containers alone.
use evolution078ots.Prelude.{
  ℕ, ◌+◌, ◌<◌, Bool, true, false, not, ◌&&◌, Option, some, if◌then◌else◌, ◌≡◌, refl, sym, ap, ◌∙◌,
  arith, Bool-cases, Option-cases, inl, inr,
}
use evolution078ots.Prelude.Table.{find}
use evolution078ots.Item.{Item, ItemTable, ReturnValue, is_ok}
use evolution078ots.Container.Slots.{
  Slots, Store, Flags, Place, Destination, query_add, query_max_count, query_destination,
}
use evolution078ots.Game.{amount, add_to, internal_add_item}
use evolution078ots.Game.Totals.{is_plain, value, total, taken}
use evolution078ots.Game.Destinations.{IsTidy, Lands, query_destination-Lands}
use evolution078ots.Game.Conservation.{arrived-total}

both_same {ℓ} : {A : Type ℓ} (x : A) (t : Bool) → (if t then x else x) ≡ x
both_same x true = refl
both_same x false = refl

not_done :
    (r : ReturnValue) (test : Bool) (x y : ℕ)
    → is_ok r ≡ false
    → (if is_ok r && not test then x else y) ≡ y
not_done r test x y e = rw e refl

module _ (items : ItemTable) (id : ℕ)
    (plain : (k : ℕ) → (items k).stackable ≡ true → is_plain (items k) ≡ true) where
  amount_small :
      (i : Item) (most : ℕ)
      → (items i.id).stackable ≡ true
      → i.count < 256
      → amount items i i.count most < 256
  amount_small i most stack small = ground (arith, stack, small)

  -- An item that is added in full.
  full_amount :
      (d : Slots) (index : Option ℕ) (i : Item) (flags : Flags)
      → let query = query_max_count items d index i i.count flags in
        is_ok query.1 ≡ true
        → value id (taken items i (amount items i i.count query.0)) ≡ value id i
  unfolding query_max_count value
  full_amount d index i flags ok = ground (arith, ok)

  add_to-total :
      (place : ℕ → Place) (s : Store) (to : Destination) (d : Slots) (i : Item) (flags : Flags)
      → (test : Bool) (fresh : ℕ) → find to.cylinder s ≡ some d
      → i.count < 256
      → Lands s to
      → let after = add_to items place s to d i flags test fresh in
        total id after.0
        ≡ (if is_ok after.1 && not test then total id s + value id i else total id s)
  unfolding add_to
  add_to-total place s to d i flags test fresh f small lands =
      let query = query_max_count items d to.index i i.count flags in
      elim (Bool-cases
        (is_ok (query_add items (place to.cylinder) to.cylinder d to.index i flags))) [
          | inr refused ↦
              rw (add_to, refused)
                (same (query_add items (place to.cylinder) to.cylinder d to.index i flags) refused)
          | inl ok ↦ elim (Bool-cases (is_ok query.1)) [
            | inr full ↦ rw (add_to, ok, full) (same query.1 full)
            | inl room ↦ elim (Bool-cases test) [
              | inl tested ↦ rw (add_to, ok, room, tested) refl
              | inr done ↦
                  rw (add_to, ok, room, done)
                    (arrived-total items id plain s to d i (amount items i i.count query.0) true
                        fresh f (lands d f).0 (lands d f).1
                        (λ stack. amount_small i query.0 stack small)
                      ∙ ap (λ v. total id s + v) (full_amount d to.index i flags room))
            ]
          ]
        ]
    where
      same :
          (r : ReturnValue)
          → is_ok r ≡ false
          → total id s ≡ (if is_ok r && not test then total id s + value id i else total id s)
      same r e = sym (not_done r test (total id s + value id i) (total id s) e)

module _ (items : ItemTable)
    (plain : (k : ℕ) → (items k).stackable ≡ true → is_plain (items k) ≡ true) where
  internal_add_item-sum :
      (place : ℕ → Place) (s : Store) (cylinder : ℕ) (index : Option ℕ) (i : Item) (flags : Flags)
      → (test : Bool) (fresh id : ℕ) → i.count < 256
      → IsTidy s
      → let after = internal_add_item items place s cylinder index i flags test fresh in
        total id after.0
        ≡ (if is_ok after.1 && not test then total id s + value id i else total id s)
  unfolding internal_add_item
  internal_add_item-sum place s cylinder index i flags test fresh id small tidy =
      elim (Option-cases (find cylinder s)) [
        | inl missing ↦ rw (internal_add_item, missing) refl
        | inr (k, g) ↦
            let to = query_destination s (place cylinder) cylinder k index in
            elim (Option-cases (find to.cylinder s)) [
              | inl missing ↦ rw (internal_add_item, g, missing) refl
              | inr (d, f) ↦
                  rw (internal_add_item, g, f)
                    (add_to-total items id plain place s to d i flags test fresh f small (
                      query_destination-Lands s cylinder k g (place cylinder) index
                        (tidy cylinder k g)))
            ]
      ]

  add_to-refused :
      (place : ℕ → Place) (s : Store) (to : Destination) (d : Slots) (i : Item) (flags : Flags)
      → (test : Bool) (fresh : ℕ)
      → let after = add_to items place s to d i flags test fresh in
        (if is_ok after.1 && not test then s else after.0) ≡ s
  unfolding add_to
  add_to-refused place s to d i flags test fresh =
      let query = query_max_count items d to.index i i.count flags in
      elim (Bool-cases
        (is_ok (query_add items (place to.cylinder) to.cylinder d to.index i flags))) [
          | inr refused ↦ rw (add_to, refused) (both_same s (is_ok _ && not test))
          | inl ok ↦ elim (Bool-cases (is_ok query.1)) [
            | inr full ↦ rw (add_to, ok, full) (both_same s (is_ok _ && not test))
            | inl room ↦ elim (Bool-cases test) [
              | inl tested ↦ rw (add_to, ok, room, tested) refl
              | inr done ↦ rw (add_to, ok, room, done) refl
            ]
          ]
        ]

  -- A refusal and a test leave every container as it was.
  internal_add_item-refused :
      (place : ℕ → Place) (s : Store) (cylinder : ℕ) (index : Option ℕ) (i : Item) (flags : Flags)
      → (test : Bool) (fresh : ℕ)
      → let after = internal_add_item items place s cylinder index i flags test fresh in
        (if is_ok after.1 && not test then s else after.0) ≡ s
  unfolding internal_add_item add_to
  internal_add_item-refused place s cylinder index i flags test fresh =
      elim (Option-cases (find cylinder s)) [
        | inl missing ↦ rw (internal_add_item, missing) refl
        | inr (k, g) ↦
            let to = query_destination s (place cylinder) cylinder k index in
            elim (Option-cases (find to.cylinder s)) [
              | inl missing ↦ rw (internal_add_item, g, missing) refl
              | inr (d, f) ↦
                  rw (internal_add_item, g, f) (add_to-refused place s to d i flags test fresh)
            ]
      ]

  -- internalAddItem to a container, where no item stands twice in a container of the store, no stack
  -- there is larger than 100, the item's count is a byte, and the types of items that stack have neither
  -- fluids nor charges: when it answers that there is no error, and is no test, the item's count is added
  -- to what the items of its type count in all containers, and no other type's count changes; otherwise
  -- every container stays as it was.
  pub internal_add_item-total :
      (place : ℕ → Place) (s : Store) (cylinder : ℕ) (index : Option ℕ) (i : Item) (flags : Flags)
      → (test : Bool) (fresh id : ℕ) → i.count < 256
      → IsTidy s
      → let after = internal_add_item items place s cylinder index i flags test fresh in
        (total id after.0
          ≡ (if is_ok after.1 && not test then total id s + value id i else total id s))
        × ((if is_ok after.1 && not test then s else after.0) ≡ s)
  internal_add_item-total place s cylinder index i flags test fresh id small tidy = (
    internal_add_item-sum place s cylinder index i flags test fresh id small tidy,
    internal_add_item-refused place s cylinder index i flags test fresh,
  )

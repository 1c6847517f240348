-- ===== src/Tile/Stack.antt =====
-- The things of a tile as one list of addresses: ground, top items, creatures, down items.
use evolution078ots.Prelude.{
  ℕ, zero, suc, ◌+◌, ◌-◌, Bool, true, false, Option, none, some, List, [], ◌∷◌, ◌++◌, length,
  get_elem?, ◌==◌, if◌then◌else◌, ◌≡◌, ◌↔◌, refl, sym, ap, ◌∙◌, arith, Option-cases, Bool-cases,
  inl, inr, get_elem?-append, get_elem?-beyond,
}
use evolution078ots.Item.{Item}
use evolution078ots.Tile.{
  Tile, Thing, item, thing_address, addresses, index_in, index_above, get_index_of_thing,
  thing_above, get_thing, item_thing, creature_thing,
}

abbrev pub above : Tile → List ℕ
above t = addresses t.top_items ++ (t.creatures ++ addresses t.down_items)

abbrev pub stack : Tile → List ℕ
stack t = elim t.ground [ none ↦ above t | some g ↦ g.address ∷ above t ]

abbrev pub address_of : Option Thing → Option ℕ
address_of none = none
address_of (some th) = some (thing_address th)

unfoldable pub is_in : ℕ → List ℕ → Bool
is_in a [] = false
is_in a (b ∷ bs) = let rest = is_in a bs in if b == a then true else rest

-- No address stands twice.
unfoldable pub distinct : List ℕ → Bool
unfolding is_in
distinct [] = true
distinct (b ∷ bs) = let rest = distinct bs in if is_in b bs then false else rest

index_in-append :
    (a n : ℕ) (xs ys : List ℕ)
    → index_in a n (xs ++ ys)
      ≡ elim (index_in a n xs) [ some k ↦ some k | none ↦ index_in a (n + length xs) ys ]
unfolding index_in
index_in-append a n [] ys = ground arith
index_in-append a n (x ∷ xs) ys = ground (arith, index_in-append a (n + 1) xs ys)

index_in_three :
    (a n m : ℕ) (xs ys zs : List ℕ)
    → length xs ≡ m
    → index_in a n (xs ++ (ys ++ zs)) ≡ elim (index_in a n xs) [
      | some k ↦ some k
      | none ↦ elim (index_in a (n + m) ys) [
        | some k ↦ some k
        | none ↦ index_in a (n + m + length ys) zs
      ]
    ]
index_in_three a n m xs ys zs e =
    ground (arith, e, index_in-append a n xs (ys ++ zs), index_in-append a (n + length xs) ys zs)

length-addresses : (is : List Item) → length (addresses is) ≡ length is
length-addresses [] = refl
length-addresses (i ∷ is) = ap suc (length-addresses is)

get_elem?-addresses :
    (is : List Item) (k : ℕ) → get_elem? (addresses is) k ≡ address_of (item_thing (get_elem? is k))
get_elem?-addresses [] k = refl
get_elem?-addresses (i ∷ is) zero = refl
get_elem?-addresses (i ∷ is) (suc k) = get_elem?-addresses is k

get_elem?-creatures :
    (cs : List ℕ) (k : ℕ) → address_of (creature_thing (get_elem? cs k)) ≡ get_elem? cs k
get_elem?-creatures [] k = refl
get_elem?-creatures (c ∷ cs) zero = refl
get_elem?-creatures (c ∷ cs) (suc k) = get_elem?-creatures cs k

-- The three lists of a tile, where two lists of addresses stand for those of the items.
thing_above_lists :
    (t : Tile) (xs zs : List ℕ) (k : ℕ)
    → length xs ≡ length t.top_items
    → length zs ≡ length t.down_items
    → get_elem? xs k ≡ address_of (item_thing (get_elem? t.top_items k))
    → get_elem? zs (k - length t.top_items - length t.creatures)
      ≡ address_of
          (item_thing (get_elem? t.down_items (k - length t.top_items - length t.creatures)))
    → address_of (thing_above t k) ≡ get_elem? (xs ++ (t.creatures ++ zs)) k
unfolding thing_above
thing_above_lists t xs zs k lx lz ex ez = ground (
  arith,
  lx,
  lz,
  ex,
  ez,
  get_elem?-append xs (t.creatures ++ zs) k,
  get_elem?-append t.creatures zs (k - length xs),
  get_elem?-creatures t.creatures (k - length t.top_items),
  get_elem?-beyond zs (k - length t.top_items - length t.creatures),
)

module _ (t : Tile) where
  index_above-above : (a n : ℕ) → index_above t a n ≡ index_in a n (above t)
  unfolding index_above
  index_above-above a n = sym (
      index_in_three a n (length t.top_items) (addresses t.top_items) t.creatures
        (addresses t.down_items) (length-addresses t.top_items))

  get_index_of_thing-stack : (a : ℕ) → get_index_of_thing t a ≡ index_in a 0 (stack t)
  unfolding get_index_of_thing index_in
  get_index_of_thing-stack a = ground (arith, index_above-above a 0, index_above-above a 1)

  thing_above-above : (k : ℕ) → address_of (thing_above t k) ≡ get_elem? (above t) k
  unfolding thing_above
  thing_above-above k =
      thing_above_lists t (addresses t.top_items) (addresses t.down_items) k
        (length-addresses t.top_items) (length-addresses t.down_items)
        (get_elem?-addresses t.top_items k)
        (get_elem?-addresses t.down_items (k - length t.top_items - length t.creatures))

  get_thing-stack : (k : ℕ) → address_of (get_thing t k) ≡ get_elem? (stack t) k
  unfolding get_thing
  get_thing-stack k = elim (Option-cases t.ground) [
    | inl e ↦ rw (get_thing, e) (thing_above-above k)
    | inr (g, e) ↦ rw (get_thing, e) (on_ground g k)
  ]
    where
      on_ground :
          (g : Item) (k : ℕ)
          → address_of (if k == 0 then some (item g) else thing_above t (k - 1))
            ≡ get_elem? (g.address ∷ above t) k
      on_ground g zero = refl
      on_ground g (suc k) = ground (arith, thing_above-above k)

index_in-get_elem? :
    (a n k : ℕ) (l : List ℕ)
    → index_in a n l ≡ some k
    → (j : ℕ) × (k ≡ n + j) × (get_elem? l j ≡ some a)
unfolding index_in
index_in-get_elem? a n k [] h = cc
index_in-get_elem? a n k (x ∷ l) h = elim (Bool-cases (x == a)) [
  | inl same ↦ (0, ground (arith, h, same), ground (arith, same))
  | inr other ↦
      let (j, e, at) = index_in-get_elem? a (n + 1) k l (ground (arith, h, other)) in
      (suc j, omega (arith, e), at)
]

is_in-get_elem? : (l : List ℕ) (k a : ℕ) → get_elem? l k ≡ some a → is_in a l ≡ true
unfolding is_in
is_in-get_elem? [] k a h = cc
is_in-get_elem? (x ∷ l) zero a h = ground (arith, h)
is_in-get_elem? (x ∷ l) (suc k) a h = ground (arith, is_in-get_elem? l k a h)

get_elem?-index_in :
    (a n k : ℕ) (l : List ℕ)
    → distinct l ≡ true
    → get_elem? l k ≡ some a
    → index_in a n l ≡ some (n + k)
unfolding index_in distinct
get_elem?-index_in a n k [] d h = cc
get_elem?-index_in a n zero (x ∷ l) d h = ground (arith, h)
get_elem?-index_in a n (suc k) (x ∷ l) d h =
    ground (arith, get_elem?-index_in a (n + 1) k l, is_in-get_elem? l k a, h, d)

-- On a tile where no thing stands twice: __getIndexOfThing gives an index for a thing exactly if
-- __getThing gives that thing for the index.
pub get_index_of_thing-get_thing :
    (t : Tile) (a k : ℕ)
    → distinct (stack t) ≡ true
    → (get_index_of_thing t a ≡ some k) ↔ (address_of (get_thing t k) ≡ some a)
get_index_of_thing-get_thing t a k d = (there, back)
  where
    same : (j : ℕ) → k ≡ 0 + j → k ≡ j
    same j e = omega (arith, e)

    there : get_index_of_thing t a ≡ some k → address_of (get_thing t k) ≡ some a
    there h =
        let (j, e, at) =
          index_in-get_elem? a 0 k (stack t) (sym (get_index_of_thing-stack t a) ∙ h) in
        get_thing-stack t k ∙ ap (get_elem? (stack t)) (same j e) ∙ at

    back : address_of (get_thing t k) ≡ some a → get_index_of_thing t a ≡ some k
    back h =
        get_index_of_thing-stack t a
        ∙ get_elem?-index_in a 0 k (stack t) d (sym (get_thing-stack t k) ∙ h)
        ∙ ap some (omega arith)

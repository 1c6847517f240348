-- ===== src/Tile/Counting.antt =====
-- The count of a type of items on a tile is a sum over its lists.
use evolution078ots.Prelude.{
  ℕ, zero, suc, ◌+◌, ◌-◌, ◌%◌, ◌^◌, ◌<◌, Bool, Option, none, some, List, [], ◌∷◌, ◌++◌, map, length,
  get_elem?, ◌==◌, if◌then◌else◌, ◌≡◌, refl, sym, ap, ◌∙◌, arith, Option-cases, inl, inr,
  length-append, get_elem?-append, get_elem?-beyond, length-map,
}
use evolution078ots.Item.{Item, ItemTable, matching, sum_matching}
use evolution078ots.Tile.{
  Tile, Thing, item, creature, thing_above, get_thing, item_thing, creature_thing, get_thing_count,
}
use evolution078ots.Tile.Queries.{thing_matching, count_things, get_item_type_count}

abbrev things_above : Tile → List Thing
things_above t = map item t.top_items ++ (map creature t.creatures ++ map item t.down_items)

-- All things of a tile, by their indices.
abbrev pub things : Tile → List Thing
things t = elim t.ground [ none ↦ things_above t | some g ↦ item g ∷ things_above t ]

get_elem?-items : (is : List Item) (k : ℕ) → get_elem? (map item is) k ≡ item_thing (get_elem? is k)
get_elem?-items [] k = refl
get_elem?-items (i ∷ is) zero = refl
get_elem?-items (i ∷ is) (suc k) = get_elem?-items is k

get_elem?-creatures :
    (cs : List ℕ) (k : ℕ) → get_elem? (map creature cs) k ≡ creature_thing (get_elem? cs k)
get_elem?-creatures [] k = refl
get_elem?-creatures (c ∷ cs) zero = refl
get_elem?-creatures (c ∷ cs) (suc k) = get_elem?-creatures cs k

-- Lists of things stand for the three lists of a tile.
thing_above_lists :
    (t : Tile) (xs ys zs : List Thing) (k : ℕ)
    → length xs ≡ length t.top_items
    → length ys ≡ length t.creatures
    → length zs ≡ length t.down_items
    → get_elem? xs k ≡ item_thing (get_elem? t.top_items k)
    → get_elem? ys (k - length t.top_items)
      ≡ creature_thing (get_elem? t.creatures (k - length t.top_items))
    → get_elem? zs (k - length t.top_items - length t.creatures)
      ≡ item_thing (get_elem? t.down_items (k - length t.top_items - length t.creatures))
    → thing_above t k ≡ get_elem? (xs ++ (ys ++ zs)) k
unfolding thing_above
thing_above_lists t xs ys zs k lx ly lz ex ey ez = ground (
  arith,
  lx,
  ly,
  lz,
  ex,
  ey,
  ez,
  get_elem?-append xs (ys ++ zs) k,
  get_elem?-append ys zs (k - length xs),
  get_elem?-beyond zs (k - length t.top_items - length t.creatures),
)

module _ (t : Tile) where
  thing_above-things_above : (k : ℕ) → thing_above t k ≡ get_elem? (things_above t) k
  thing_above-things_above k =
      let k' = k - length t.top_items in
      thing_above_lists t (map item t.top_items) (map creature t.creatures) (map item t.down_items)
        k (length-map item t.top_items) (length-map creature t.creatures)
        (length-map item t.down_items) (get_elem?-items t.top_items k)
        (get_elem?-creatures t.creatures k')
        (get_elem?-items t.down_items (k' - length t.creatures))

  get_thing-things : (k : ℕ) → get_thing t k ≡ get_elem? (things t) k
  unfolding get_thing
  get_thing-things k = elim (Option-cases t.ground) [
    | inl e ↦ rw (get_thing, e) (thing_above-things_above k)
    | inr (g, e) ↦ rw (get_thing, e) (on_ground g k)
  ]
    where
      on_ground :
          (g : Item) (k : ℕ)
          → (if k == 0 then some (item g) else thing_above t (k - 1))
            ≡ get_elem? (item g ∷ things_above t) k
      on_ground g zero = refl
      on_ground g (suc k) = ground (arith, thing_above-things_above k)

  length-things : length (things t) ≡ get_thing_count t
  unfolding get_thing_count
  length-things = ground (
    arith,
    length-append (map item t.top_items) (map creature t.creatures ++ map item t.down_items),
    length-append (map creature t.creatures) (map item t.down_items),
    length-map item t.top_items,
    length-map creature t.creatures,
    length-map item t.down_items,
  )

module _ (items : ItemTable) (id : ℕ) (sub : Option ℕ) (flag : Bool) where
  abbrev counted : Thing → ℕ
  counted (item i) = matching items id sub flag i
  counted (creature a) = 0

  abbrev sum_things : List Thing → ℕ
  sum_things [] = 0
  sum_things (th ∷ ths) = counted th + sum_things ths

  sum_things-append : (xs ys : List Thing) → sum_things (xs ++ ys) ≡ sum_things xs + sum_things ys
  sum_things-append [] ys = omega arith
  sum_things-append (x ∷ xs) ys = omega (arith, sum_things-append xs ys)

  sum_things-items : (is : List Item) → sum_things (map item is) ≡ sum_matching items id sub flag is
  unfolding sum_matching
  sum_things-items [] = refl
  sum_things-items (i ∷ is) = ap (λ n. matching items id sub flag i + n) (sum_things-items is)

  sum_things-creatures : (cs : List ℕ) → sum_things (map creature cs) ≡ 0
  sum_things-creatures [] = refl
  sum_things-creatures (c ∷ cs) = omega (arith, sum_things-creatures cs)

  thing_matching-counted :
      (th : Thing) → thing_matching items id sub flag (some th) ≡ some (counted th)
  unfolding thing_matching
  thing_matching-counted (item i) = refl
  thing_matching-counted (creature a) = refl

  count_things_step :
      (t : Tile) (i count n v : ℕ)
      → thing_matching items id sub flag (get_thing t i) ≡ some v
      → count_things items id sub flag t (suc n) i count
        ≡ count_things items id sub flag t n (i + 1) ((count + v) % 2 ^ 32)
  unfolding count_things
  count_things_step t i count n v e = rw (count_things, e) refl

  count_things-sum :
      (t : Tile) (l : List Thing) (i count : ℕ)
      → count < 2 ^ 32
      → ((k : ℕ) → get_thing t (k + i) ≡ get_elem? l k)
      → count_things items id sub flag t (length l) i count ≡ some ((count + sum_things l) % 2 ^ 32)
  unfolding count_things
  count_things-sum t [] i count small at = ap some (omega arith)
  count_things-sum t (th ∷ l) i count small at =
      count_things_step t i count (length l) (counted th) (
        ap (thing_matching items id sub flag) (ap (get_thing t) (omega arith) ∙ at 0)
        ∙ thing_matching-counted th)
      ∙ count_things-sum t l (i + 1) ((count + counted th) % 2 ^ 32) (omega arith)
          (λ k. ap (get_thing t) (omega arith) ∙ at (suc k))
      ∙ ap some (omega arith)

abbrev pub on_ground_matching : ItemTable → ℕ → Option ℕ → Bool → Option Item → ℕ
on_ground_matching items id sub flag none = 0
on_ground_matching items id sub flag (some g) = matching items id sub flag g

-- __getItemTypeCount never reads a thing that is not there, and gives the sum of what the ground, the
-- top items and the items below the creatures count for, with 32 bits.
pub get_item_type_count_lem :
    (items : ItemTable) (t : Tile) (id : ℕ) (sub : Option ℕ) (flag : Bool)
    → get_item_type_count items t id sub flag
      ≡ some (
          (on_ground_matching items id sub flag t.ground
            + sum_matching items id sub flag t.top_items
            + sum_matching items id sub flag t.down_items)
          % 2 ^ 32)
unfolding get_item_type_count
get_item_type_count_lem items t id sub flag =
    ap (λ n. count_things items id sub flag t n 0 0) (sym (length-things t))
    ∙ count_things-sum items id sub flag t (things t) 0 0 (omega arith)
        (λ k. ap (get_thing t) (omega arith) ∙ get_thing-things t k)
    ∙ ap (λ n. some (n % 2 ^ 32)) total
  where
    S : List Thing → ℕ
    S = sum_things items id sub flag

    above :
        S (things_above t)
        ≡ sum_matching items id sub flag t.top_items + sum_matching items id sub flag t.down_items
    above = omega (
      arith,
      sum_things-append items id sub flag (map item t.top_items)
          (map creature t.creatures ++ map item t.down_items),
      sum_things-append items id sub flag (map creature t.creatures) (map item t.down_items),
      sum_things-items items id sub flag t.top_items,
      sum_things-items items id sub flag t.down_items,
      sum_things-creatures items id sub flag t.creatures,
    )

    total :
        0 + S (things t)
        ≡ on_ground_matching items id sub flag t.ground
          + sum_matching items id sub flag t.top_items
          + sum_matching items id sub flag t.down_items
    total = ground (arith, above)

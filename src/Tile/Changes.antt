-- ===== src/Tile/Changes.antt =====
-- Every sequence of changes keeps the layers of a tile.
use evolution078ots.Prelude.{
  List, [], ◌∷◌, ℕ, zero, suc, some_inj, refl, ◌+◌, ◌-◌, Bool, true, false, Option, none, some, ◌≡◌,
  ◌==◌, ltb, length, get_elem?, arith, Bool-cases, inl, inr, if◌then◌else◌, subst, sym, ◌∙◌,
}
use evolution078ots.Prelude.Int.{pos, negsuc}
use evolution078ots.Item.{Item, ItemTable, change_item, set_parent}
use evolution078ots.Tile.{
  Tile, add_creature, remove_creature, Thing, item, thing_above, item_thing, get_thing, set_at,
  change_ground, is_none, get_index_of_thing, adopt, Replaced, done, undefined, replace_thing,
  replace_above, replace_top, replace_ground,
}
use evolution078ots.Tile.History.{
  Change, add, load, take_off, update, creature_in, creature_out, replace, transform, change, run,
  new_tile, keeps, keep_all, same_layer, fits_in, all_stay, ground_stays, tile_stays, retyped,
  transform_item, replaced_tile,
}
use evolution078ots.Tile.Replacement.{replace_above_lem, below_all, exchanged}
use evolution078ots.Tile.Layers.{
  IsLayered, top_ok, down_ok, ground_ok, add_item-IsLayered, internal_add_item-IsLayered,
  remove_item-IsLayered, update_item-IsLayered, change_parent-IsLayered,
}

thing_top :
    (t : Tile) (index : ℕ)
    → ltb index (length t.top_items) ≡ true
    → thing_above t index ≡ item_thing (get_elem? t.top_items index)
unfolding thing_above
thing_top t index top = rw top refl

thing_down :
    (t : Tile) (index : ℕ)
    → ltb index (length t.top_items) ≡ false
    → ltb index (length t.top_items + length t.creatures) ≡ false
    → ltb index (length t.top_items + length t.creatures + length t.down_items) ≡ true
    → thing_above t index
      ≡ item_thing (get_elem? t.down_items (index - length t.top_items - length t.creatures))
unfolding thing_above
thing_down t index beyond below down = ground (arith, beyond, below, down)

thing_out :
    (t : Tile) (index : ℕ)
    → ltb index (length t.top_items) ≡ false
    → ltb index (length t.top_items + length t.creatures) ≡ false
    → ltb index (length t.top_items + length t.creatures + length t.down_items) ≡ false
    → thing_above t index ≡ none
unfolding thing_above
thing_out t index beyond below out = ground (arith, beyond, below, out)

module _ (items : ItemTable) where
  same_as :
      (i old new : Item)
      → i ≡ old
      → same_layer (items old.id) (items new.id) ≡ true
      → same_layer (items i.id) (items new.id) ≡ true
  same_as i old new e s = subst (λ j. same_layer (items j.id) (items new.id) ≡ true) (sym e) s

  top_ok-set_at :
      (lo k : ℕ) (new old : Item) (is : List Item)
      → get_elem? is k ≡ some old
      → same_layer (items old.id) (items new.id) ≡ true
      → top_ok items lo is ≡ true
      → top_ok items lo (set_at k new is) ≡ true
  unfolding top_ok set_at
  top_ok-set_at lo k new old [] e s h = h
  top_ok-set_at lo zero new old (i ∷ is) e s h =
      ground (arith, h, some_inj i old e, same_as i old new (some_inj i old e) s)
  top_ok-set_at lo (suc k) new old (i ∷ is) e s h =
      ground (arith, h, top_ok-set_at (items i.id).always_on_top_order k new old is e s)

  down_ok-set_at :
      (k : ℕ) (new old : Item) (is : List Item)
      → get_elem? is k ≡ some old
      → same_layer (items old.id) (items new.id) ≡ true
      → down_ok items is ≡ true
      → down_ok items (set_at k new is) ≡ true
  unfolding down_ok set_at
  down_ok-set_at k new old [] e s h = h
  down_ok-set_at zero new old (i ∷ is) e s h =
      ground (arith, h, same_as i old new (some_inj i old e) s)
  down_ok-set_at (suc k) new old (i ∷ is) e s h = ground (arith, h, down_ok-set_at k new old is e s)

  top_ok-all_stay :
      (lo a : ℕ) (f : Item → Item) (is : List Item)
      → all_stay items a f is ≡ true
      → top_ok items lo is ≡ true
      → top_ok items lo (change_item a f is) ≡ true
  unfolding top_ok change_item all_stay
  top_ok-all_stay lo a f [] s h = refl
  top_ok-all_stay lo a f (i ∷ is) s h =
      ground (arith, s, h, top_ok-all_stay (items i.id).always_on_top_order a f is)

  down_ok-all_stay :
      (a : ℕ) (f : Item → Item) (is : List Item)
      → all_stay items a f is ≡ true
      → down_ok items is ≡ true
      → down_ok items (change_item a f is) ≡ true
  unfolding down_ok change_item all_stay
  down_ok-all_stay a f [] s h = refl
  down_ok-all_stay a f (i ∷ is) s h = ground (arith, s, h, down_ok-all_stay a f is)

  ground_ok-set :
      (old new : Item)
      → same_layer (items old.id) (items new.id) ≡ true
      → (items old.id).is_ground_tile ≡ true
      → (items new.id).is_ground_tile ≡ true
  ground_ok-set old new s h = ground (arith, s, h)

  ground_ok-stays :
      (a : ℕ) (f : Item → Item) (g : Option Item)
      → ground_stays items a f g ≡ true
      → ground_ok items g ≡ true
      → ground_ok items (change_ground a f g) ≡ true
  unfolding change_ground
  ground_ok-stays a f none s h = refl
  ground_ok-stays a f (some g) s h = ground (arith, s, h)

  transform_item-IsLayered :
      (t : Tile) (a new : ℕ) (count : Option ℕ)
      → tile_stays items a (retyped items new count) t ≡ true
      → IsLayered items t
      → IsLayered items (transform_item items t a new count)
  unfolding transform_item
  transform_item-IsLayered t a new count s h =
      elim (Bool-cases (is_none (get_index_of_thing t a))) [
        | inl missing ↦ rw (transform_item, missing) h
        | inr found ↦
            let f = retyped items new count in
            rw (transform_item, found)
              (
                ground_ok-stays a f t.ground (ground (arith, s)) h.0,
                top_ok-all_stay 0 a f t.top_items (ground (arith, s)) h.1,
                down_ok-all_stay a f t.down_items (ground (arith, s)) h.2,
              )
      ]

  exchanged-IsLayered :
      (t : Tile) (k : ℕ) (new : Item)
      → fits_in items (item_thing (get_elem? t.down_items k)) new ≡ true
      → IsLayered items t
      → IsLayered items (replaced_tile t (exchanged t k new))
  exchanged-IsLayered t k new s h = go (get_elem? t.down_items k) refl s
    where
      go :
          (o : Option Item)
          → get_elem? t.down_items k ≡ o
          → fits_in items (item_thing o) new ≡ true
          → IsLayered items (
              replaced_tile t (elim o [
                | none ↦ undefined
                | some old ↦
                    done
                      (adopt (record t { down_items = set_at k new t.down_items }) new.address)
                      (some (set_parent old none))
              ]))
      go none e fit = h
      go (some old) e fit =
          change_parent-IsLayered items (record t { down_items = set_at k new t.down_items })
            new.address (h.0, h.1, down_ok-set_at k new old t.down_items e fit h.2)

  topped-IsLayered :
      (t : Tile) (k : ℕ) (new : Item)
      → fits_in items (item_thing (get_elem? t.top_items k)) new ≡ true
      → IsLayered items t
      → IsLayered items (record t { top_items = set_at k new t.top_items })
  topped-IsLayered t k new s h = go (get_elem? t.top_items k) refl s
    where
      go :
          (o : Option Item)
          → get_elem? t.top_items k ≡ o
          → fits_in items (item_thing o) new ≡ true
          → IsLayered items (record t { top_items = set_at k new t.top_items })
      go none e fit = absurd cc
      go (some old) e fit = (h.0, top_ok-set_at 0 k new old t.top_items e fit h.1, h.2)

  -- A replacement from the top items on.
  replace_above-IsLayered :
      (t : Tile) (index : ℕ) (new : Item)
      → fits_in items (thing_above t index) new ≡ true
      → IsLayered items t
      → IsLayered items (replaced_tile t (replace_above new (replace_top new (t, none, pos index))))
  replace_above-IsLayered t index new s h =
      let at : (o : Option Thing) → thing_above t index ≡ o → fits_in items o new ≡ true =
        λ o e. subst (λ o. fits_in items o new ≡ true) e s in
      let become : (r : Replaced)
          → replace_above new (replace_top new (t, none, pos index)) ≡ r
          → IsLayered items (replaced_tile t r)
          → IsLayered items
              (replaced_tile t (replace_above new (replace_top new (t, none, pos index)))) =
        λ r e k. subst (λ r. IsLayered items (replaced_tile t r)) (sym e) k in
      elim (Bool-cases (ltb index (length t.top_items))) [
        | inl top ↦
            become (done (record t { top_items = set_at index new t.top_items }) none)
              (replace_above_lem t new index ∙ rw top refl)
              (topped-IsLayered t index new (at _ (thing_top t index top)) h)
        | inr beyond ↦ elim (Bool-cases (ltb index (length t.top_items + length t.creatures))) [
          | inl mid ↦ become (done t none) (replace_above_lem t new index ∙ rw (beyond, mid) refl) h
          | inr below ↦
              elim (Bool-cases
                (ltb index (length t.top_items + length t.creatures + length t.down_items))) [
                  | inl down ↦
                      become (exchanged t (index - length t.top_items - length t.creatures) new)
                        (replace_above_lem t new index ∙ rw (beyond, below, down) refl)
                        (exchanged-IsLayered t (index - length t.top_items - length t.creatures) new
                          (at _ (thing_down t index beyond below down)) h)
                  | inr out ↦ absurd (ground (arith, at none (thing_out t index beyond below out)))
                ]
        ]
      ]

  replace_ground-IsLayered :
      (t : Tile) (g : Item) (index : ℕ) (new : Item) (first : Bool)
      → fits_in items (if first then some (item g) else thing_above t (index - 1)) new ≡ true
      → IsLayered items t
      → (items g.id).is_ground_tile ≡ true
      → IsLayered items (
          replaced_tile t (
            replace_above new (
              replace_top new (
                if first
                then (record t { ground = some new }, some g, negsuc 0)
                else (t, none, pos (index - 1))))))
  replace_ground-IsLayered t g index new true fit h on =
      subst (λ r. IsLayered items (replaced_tile t r))
        (sym (below_all (record t { ground = some new }) new (some g)))
        (ground_ok-set g new fit on, h.1, h.2)
  replace_ground-IsLayered t g index new false fit h on =
      replace_above-IsLayered t (index - 1) new fit h

  replace_thing-IsLayered :
      (t : Tile) (index : ℕ) (new : Item)
      → fits_in items (get_thing t index) new ≡ true
      → IsLayered items t
      → IsLayered items (replaced_tile t (replace_thing t index new))
  unfolding replace_thing replace_ground get_thing
  replace_thing-IsLayered t index new s h = go t.ground refl s
    where
      go :
          (g : Option Item)
          → t.ground ≡ g
          → fits_in items
              (elim g [
                | none ↦ thing_above t index
                | some g ↦ if index == 0 then some (item g) else thing_above t (index - 1)
              ])
              new
            ≡ true
          → IsLayered items (
              replaced_tile t (
                replace_above new (
                  replace_top new (elim g [
                    | none ↦ (t, none, pos index)
                    | some g ↦
                        if index == 0
                        then (record t { ground = some new }, some g, negsuc 0)
                        else (t, none, pos (index - 1))
                  ]))))
      go none e fit = replace_above-IsLayered t index new fit h
      go (some g) e fit =
          replace_ground-IsLayered t g index new (index == 0) fit h
            (subst (λ g. ground_ok items g ≡ true) e h.0)

  change-IsLayered :
      (t : Tile) (c : Change)
      → keeps items t c ≡ true
      → IsLayered items t
      → IsLayered items (change items t c)
  unfolding change keeps add_creature remove_creature
  change-IsLayered t (add i) k h = add_item-IsLayered items t i h
  change-IsLayered t (load i) k h = internal_add_item-IsLayered items t i h
  change-IsLayered t (take_off a count) k h = remove_item-IsLayered items t a count h
  change-IsLayered t (update a count) k h = update_item-IsLayered items t a count h
  change-IsLayered t (creature_in a) k h = h
  change-IsLayered t (creature_out a) k h = h
  change-IsLayered t (replace index new) k h = replace_thing-IsLayered t index new k h
  change-IsLayered t (transform a new count) k h = transform_item-IsLayered t a new count k h

  run-IsLayered_from :
      (t : Tile) (cs : List Change)
      → keep_all items t cs ≡ true
      → IsLayered items t
      → IsLayered items (run items t cs)
  unfolding run keep_all
  run-IsLayered_from t [] k h = h
  run-IsLayered_from t (c ∷ cs) k h =
      run-IsLayered_from (change items t c) cs (ground (arith, k))
        (change-IsLayered t c (ground (arith, k)) h)

  -- After any sequence of changes of a new tile, which are items that are added by __addThing, loaded by
  -- __internalAddThing, taken off by __removeThing or given another count by __updateThing, creatures that
  -- come and go, replacements by __replaceThing of a thing on the tile by an item whose type has the layer
  -- of the old one's, and its order if that is always on top (for a creature: by any item), and changes of
  -- an item's type by transformItem into such a type: the ground is a ground tile, the top items are
  -- items that are always on top, with orders that do not fall from the bottom up, and the items below are
  -- neither.
  pub run-IsLayered :
      (a : ℕ) (cs : List Change)
      → keep_all items (new_tile a) cs ≡ true
      → IsLayered items (run items (new_tile a) cs)
  unfolding new_tile top_ok down_ok
  run-IsLayered a cs k = run-IsLayered_from (new_tile a) cs k (refl, refl, refl)

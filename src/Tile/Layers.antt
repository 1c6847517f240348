-- ===== src/Tile/Layers.antt =====
-- The layers of a tile: a ground, top items in their order, and other items below the creatures.
use evolution078ots.Prelude.{
  ℕ, ◌≤◌, Bool, true, false, not, ◌&&◌, Option, none, some, List, [], ◌∷◌, leb, ◌==◌, ◌≡◌, refl,
  arith, Option-cases, Bool-cases, inl, inr,
}
use evolution078ots.Item.{
  Item, ItemTable, erase_item, change_item, set_item_count, new_count, set_parent,
  set_item_count_or_subtype,
}
use evolution078ots.Tile.{
  Tile, adopt, remove_item, add_item, internal_add_item, insert_top, insert_top_last, clear_old,
  put_top, put_down, first_of, is_none, is_at, listed_item, get_index_of_thing, update_item,
  change_ground,
}

abbrev order : ItemTable → Item → ℕ
order items i = (items i.id).always_on_top_order

-- Top items whose orders do not fall, from `lo` on.
unfoldable pub top_ok : ItemTable → ℕ → List Item → Bool
top_ok items lo [] = true
top_ok items lo (i ∷ is) =
    not (items i.id).is_ground_tile
    && ((items i.id).always_on_top
        && (leb lo (items i.id).always_on_top_order
            && top_ok items (items i.id).always_on_top_order is))

unfoldable pub down_ok : ItemTable → List Item → Bool
down_ok items [] = true
down_ok items (i ∷ is) =
    not (items i.id).is_ground_tile && (not (items i.id).always_on_top && down_ok items is)

abbrev pub ground_ok : ItemTable → Option Item → Bool
ground_ok items none = true
ground_ok items (some g) = (items g.id).is_ground_tile

-- The ground is one, the top items are, in their order, and the others are neither.
abbrev pub IsLayered : ItemTable → Tile → Type 0
IsLayered items t =
    (ground_ok items t.ground ≡ true)
    × (top_ok items 0 t.top_items ≡ true)
    × (down_ok items t.down_items ≡ true)

module _ (items : ItemTable) where
  top_ok_from :
      (lo lo' : ℕ) (is : List Item)
      → lo' ≤ lo
      → top_ok items lo is ≡ true
      → top_ok items lo' is ≡ true
  unfolding top_ok
  top_ok_from lo lo' [] le h = refl
  top_ok_from lo lo' (i ∷ is) le h = ground (arith, h, le)

  top_ok-erase_item :
      (lo a : ℕ) (is : List Item)
      → top_ok items lo is ≡ true
      → top_ok items lo (erase_item a is) ≡ true
  unfolding top_ok erase_item
  top_ok-erase_item lo a [] h = refl
  top_ok-erase_item lo a (i ∷ is) h = ground (
    arith,
    h,
    top_ok-erase_item (items i.id).always_on_top_order a is,
    top_ok_from (items i.id).always_on_top_order lo is,
  )

  down_ok-erase_item :
      (a : ℕ) (is : List Item) → down_ok items is ≡ true → down_ok items (erase_item a is) ≡ true
  unfolding down_ok erase_item
  down_ok-erase_item a [] h = refl
  down_ok-erase_item a (i ∷ is) h = ground (arith, h, down_ok-erase_item a is)

  down_ok-change_item :
      (a : ℕ) (f : Item → Item) (is : List Item)
      → ((j : Item) → (f j).id ≡ j.id)
      → down_ok items is ≡ true
      → down_ok items (change_item a f is) ≡ true
  unfolding down_ok change_item
  down_ok-change_item a f [] same h = refl
  down_ok-change_item a f (i ∷ is) same h =
      ground (arith, h, same i, down_ok-change_item a f is same)

  top_ok-change_item :
      (lo a : ℕ) (f : Item → Item) (is : List Item)
      → ((j : Item) → (f j).id ≡ j.id)
      → top_ok items lo is ≡ true
      → top_ok items lo (change_item a f is) ≡ true
  unfolding top_ok change_item
  top_ok-change_item lo a f [] same h = refl
  top_ok-change_item lo a f (i ∷ is) same h =
      ground (arith, h, same i, top_ok-change_item (items i.id).always_on_top_order a f is same)

  top_ok-insert_top :
      (lo : ℕ) (i : Item) (is : List Item)
      → (items i.id).is_ground_tile ≡ false
      → (items i.id).always_on_top ≡ true
      → lo ≤ (items i.id).always_on_top_order
      → top_ok items lo is ≡ true
      → top_ok items lo (insert_top items i is) ≡ true
  unfolding top_ok insert_top
  top_ok-insert_top lo i [] g o le h = ground (arith, g, o, le)
  top_ok-insert_top lo i (j ∷ is) g o le h =
      ground (arith, g, o, le, h, top_ok-insert_top (items j.id).always_on_top_order i is)

  top_ok-insert_top_last :
      (lo : ℕ) (i : Item) (is : List Item)
      → (items i.id).is_ground_tile ≡ false
      → (items i.id).always_on_top ≡ true
      → lo ≤ (items i.id).always_on_top_order
      → top_ok items lo is ≡ true
      → top_ok items lo (insert_top_last items i is) ≡ true
  unfolding top_ok insert_top_last
  top_ok-insert_top_last lo i [] g o le h = ground (arith, g, o, le)
  top_ok-insert_top_last lo i (j ∷ is) g o le h =
      ground (arith, g, o, le, h, top_ok-insert_top_last (items j.id).always_on_top_order i is)

  -- An item that is taken off a tile, in whole or in part, leaves its layers.
  pub remove_item-IsLayered :
      (t : Tile) (a count : ℕ) → IsLayered items t → IsLayered items (remove_item items t a count)
  unfolding remove_item
  remove_item-IsLayered t a count h = elim (Bool-cases (is_none (get_index_of_thing t a))) [
    | inl missing ↦ rw (remove_item, missing) h
    | inr found ↦ elim (Bool-cases (is_at t.ground a)) [
      | inl on ↦ rw (remove_item, found, on) (refl, h.1, h.2)
      | inr off ↦ elim (Option-cases (listed_item t a)) [
        | inl e ↦ rw (remove_item, found, off, e) h
        | inr (i, e) ↦ elim (Bool-cases (items i.id).always_on_top) [
          | inl top ↦
              rw (remove_item, found, off, e, top) (h.0, top_ok-erase_item 0 a t.top_items h.1, h.2)
          | inr down ↦ elim (Bool-cases ((items i.id).stackable && not (count == i.count))) [
            | inl part ↦
                rw (remove_item, found, off, e, down, part)
                  (
                    h.0,
                    h.1,
                    down_ok-change_item a (λ j. set_item_count j (new_count j.count count))
                        t.down_items (λ j. unfold set_item_count in refl) h.2,
                  )
            | inr whole ↦
                rw (remove_item, found, off, e, down, whole)
                  (h.0, h.1, down_ok-erase_item a t.down_items h.2)
          ]
        ]
      ]
    ]
  ]

  clear_old-IsLayered :
      (t : Tile) (old : Option Item) → IsLayered items t → IsLayered items (clear_old items t old).0
  unfolding clear_old
  clear_old-IsLayered t none h = h
  clear_old-IsLayered t (some old) h = remove_item-IsLayered t old.address 1 h

  new_down :
      (i : Item) (is : List Item)
      → (items i.id).is_ground_tile ≡ false
      → (items i.id).always_on_top ≡ false
      → down_ok items is ≡ true
      → down_ok items (i ∷ is) ≡ true
  unfolding down_ok
  new_down i is off down h = ground (arith, off, down, h)

  pub add_item-IsLayered :
      (t : Tile) (new : Item) → IsLayered items t → IsLayered items (add_item items t new).0
  unfolding add_item put_top put_down
  add_item-IsLayered t new h = elim (Bool-cases (items new.id).is_ground_tile) [
    | inl on ↦ elim (Option-cases t.ground) [
      | inl e ↦ rw (add_item, on, e) (on, h.1, h.2)
      | inr (g, e) ↦ rw (add_item, on, e) (on, h.1, h.2)
    ]
    | inr off ↦ elim (Bool-cases (items new.id).always_on_top) [
      | inl top ↦ elim (Bool-cases (items new.id).is_splash) [
        | inl splash ↦
            let old = first_of (λ j. (items j.id).is_splash) t.top_items in
            let kept = clear_old-IsLayered t old h in
            rw (add_item, off, top, splash)
              (
                kept.0,
                top_ok-insert_top 0 (set_parent new (some t.address))
                    (clear_old items t old).0.top_items off top (omega arith) kept.1,
                kept.2,
              )
        | inr other ↦
            rw (add_item, off, top, other)
              (
                h.0,
                top_ok-insert_top 0 (set_parent new (some t.address)) t.top_items off top
                    (omega arith) h.1,
                h.2,
              )
      ]
      | inr down ↦ elim (Bool-cases (items new.id).is_magic_field) [
        | inl field ↦
            let old = first_of (λ j. (items j.id).is_magic_field) t.down_items in
            let kept = clear_old-IsLayered t old h in
            rw (add_item, off, down, field)
              (
                kept.0,
                kept.1,
                new_down (set_parent new (some t.address)) (clear_old items t old).0.down_items off
                    down kept.2,
              )
        | inr other ↦
            rw (add_item, off, down, other)
              (h.0, h.1, new_down (set_parent new (some t.address)) t.down_items off down h.2)
      ]
    ]
  ]

  pub internal_add_item-IsLayered :
      (t : Tile) (new : Item) → IsLayered items t → IsLayered items (internal_add_item items t new)
  unfolding internal_add_item
  internal_add_item-IsLayered t new h = elim (Bool-cases (items new.id).is_ground_tile) [
    | inl on ↦ elim (Option-cases t.ground) [
      | inl e ↦ rw (internal_add_item, on, e) (on, h.1, h.2)
      | inr (g, e) ↦ rw (internal_add_item, on, e) h
    ]
    | inr off ↦ elim (Bool-cases (items new.id).always_on_top) [
      | inl top ↦
          rw (internal_add_item, off, top)
            (
              h.0,
              top_ok-insert_top_last 0 (set_parent new (some t.address)) t.top_items off top
                  (omega arith) h.1,
              h.2,
            )
      | inr down ↦
          rw (internal_add_item, off, down)
            (h.0, h.1, new_down (set_parent new (some t.address)) t.down_items off down h.2)
    ]
  ]

  id-set_item_count_or_subtype :
      (count : ℕ) (j : Item) → (set_item_count_or_subtype items j count).id ≡ j.id
  unfolding set_item_count_or_subtype
  id-set_item_count_or_subtype count j = ground arith

  ground_ok-change_ground :
      (a : ℕ) (f : Item → Item) (g : Option Item)
      → ((j : Item) → (f j).id ≡ j.id)
      → ground_ok items g ≡ true
      → ground_ok items (change_ground a f g) ≡ true
  unfolding change_ground
  ground_ok-change_ground a f none same h = refl
  ground_ok-change_ground a f (some g) same h = ground (arith, h, same g)

  pub update_item-IsLayered :
      (t : Tile) (a count : ℕ) → IsLayered items t → IsLayered items (update_item items t a count)
  unfolding update_item
  update_item-IsLayered t a count h = elim (Bool-cases (is_none (get_index_of_thing t a))) [
    | inl missing ↦ rw (update_item, missing) h
    | inr found ↦
        let f = λ (i : Item). set_item_count_or_subtype items i count in
        rw (update_item, found)
          (
            ground_ok-change_ground a f t.ground (id-set_item_count_or_subtype count) h.0,
            top_ok-change_item 0 a f t.top_items (id-set_item_count_or_subtype count) h.1,
            down_ok-change_item a f t.down_items (id-set_item_count_or_subtype count) h.2,
          )
  ]

  pub change_parent-IsLayered : (t : Tile) (a : ℕ) → IsLayered items t → IsLayered items (adopt t a)
  unfolding adopt
  change_parent-IsLayered t a h =
      let f = λ (i : Item). set_parent i (some t.address) in
      (
        ground_ok-change_ground a f t.ground (λ j. refl) h.0,
        top_ok-change_item 0 a f t.top_items (λ j. refl) h.1,
        down_ok-change_item a f t.down_items (λ j. refl) h.2,
      )

-- ===== src/FileLoader/Cache/Lookup.antt =====
-- getCacheBlock and loadCacheBlock: the block that is found holds the bytes of the file.
use evolution078ots.Prelude.{
  some_inj, ℕ, zero, suc, ◌-◌, ◌≤◌, ◌<◌, Bool, true, false, Option, none, some, List, [], ◌∷◌,
  length, get_elem?, ltb, ◌==◌, if◌then◌else◌, ◌≡◌, refl, ap, subst, ◌∙◌, arith, Bool-cases,
  Option-cases, inl, inr,
}
use evolution078ots.FileLoader.Cache.{
  Block, base_pos, find_block, loading_block, set_block, loaded_data, load_cache_block,
  get_cache_block,
}
use evolution078ots.FileLoader.Cache.Blocks.{
  AllTrue, IsTrue, get_elem?-set_block, length-set_block, find_block-get_elem?, loading_block-small,
}

module _ (cache_size : ℕ) (file : List ℕ) where
  -- The block at `i` has the file's bytes from `base` on.
  abbrev pub Holds : ℕ → ℕ → List Block → Type 0
  Holds base i bs =
      (b : Block) × (get_elem? bs i ≡ some b)
      × (b.base ≡ base)
      × (b.bytes ≡ loaded_data cache_size file base)

  -- What is kept when a block for `pos` has been looked for.
  abbrev pub IsFound : ℕ → List Block → Option ℕ × List Block → Type 0
  IsFound pos bs r =
      AllTrue cache_size file (r.1)
      × (length (r.1) ≡ length bs)
      × (r.0 ≡ none
          → length (loaded_data cache_size file (base_pos cache_size pos))
            < pos - base_pos cache_size pos)
      × ((i : ℕ) → r.0 ≡ some i → Holds (base_pos cache_size pos) i (r.1))

  set_block-AllTrue :
      (i : ℕ) (f : Block → Block) (bs : List Block)
      → ((b : Block) → IsTrue cache_size file (f b))
      → AllTrue cache_size file bs
      → AllTrue cache_size file (set_block i f bs)
  set_block-AllTrue i f bs hf h k b at loaded = elim (Bool-cases (i == k)) [
    | inl here ↦ elim (Option-cases (get_elem? bs k)) [
      | inl e ↦ absurd (ground (arith, at, here, e, get_elem?-set_block i f bs k))
      | inr (c, e) ↦
          let q : f c ≡ b = ground (arith, at, here, e, get_elem?-set_block i f bs k) in
          subst (IsTrue cache_size file) q (hf c) loaded
    ]
    | inr there ↦ h k b (ground (arith, at, there, get_elem?-set_block i f bs k)) loaded
  ]

  set_block-here :
      (i : ℕ) (f : Block → Block) (bs : List Block)
      → i < length bs
      → (c : Block) × (get_elem? (set_block i f bs) i ≡ some (f c))
  unfolding set_block
  set_block-here i f [] h = absurd (omega (arith, h))
  set_block-here zero f (b ∷ bs) h = (b, refl)
  set_block-here (suc i) f (b ∷ bs) h = set_block-here i f bs (omega (arith, h))

  load_cache_block_lem :
      (pos : ℕ) (bs : List Block)
      → 1 ≤ length bs
      → AllTrue cache_size file bs
      → IsFound pos bs (load_cache_block cache_size file pos bs)
  unfolding load_cache_block
  load_cache_block_lem pos bs l h = go (ltb (length bytes) (pos - base)) refl
    where
      base : ℕ
      base = base_pos cache_size pos

      bytes : List ℕ
      bytes = loaded_data cache_size file base

      i : ℕ
      i = loading_block cache_size base bs

      fill : Block → Block
      fill b = record { loaded = true; base = base; bytes = bytes }

      go :
          (t : Bool)
          → ltb (length bytes) (pos - base) ≡ t
          → IsFound pos bs (
              if t
              then (none, set_block i (λ b. record b { base = base; bytes = bytes }) bs)
              else (some i, set_block i fill bs))
      go true e = (
        set_block-AllTrue i _ bs (λ b l. refl) h,
        length-set_block i _ bs,
        (λ _. ground (arith, e)),
        (λ j x. absurd (cc)),
      )
      go false e = (
        set_block-AllTrue i _ bs (λ b l. refl) h,
        length-set_block i _ bs,
        (λ x. absurd cc),
        (λ j x.
            let (c, at) = set_block-here i fill bs (loading_block-small cache_size base bs l) in
            let ij : i ≡ j = some_inj i j x in
            subst (λ n. Holds base n (set_block i fill bs)) ij (fill c, at, refl, refl)),
      )

  pub get_cache_block_lem :
      (pos : ℕ) (bs : List Block)
      → 1 ≤ length bs
      → AllTrue cache_size file bs
      → IsFound pos bs (get_cache_block cache_size file pos bs)
  unfolding get_cache_block
  get_cache_block_lem pos bs l h = go (find_block (base_pos cache_size pos) 0 bs) refl
    where
      go :
          (o : Option ℕ)
          → find_block (base_pos cache_size pos) 0 bs ≡ o
          → IsFound pos bs
              (elim o [ some i ↦ (some i, bs) | none ↦ load_cache_block cache_size file pos bs ])
      go none e = load_cache_block_lem pos bs l h
      go (some i) e = (
        h,
        refl,
        (λ x. absurd cc),
        (λ j x.
            let (k, b, ik, at, lo, same) =
              find_block-get_elem? (base_pos cache_size pos) 0 i bs e in
            let kj : k ≡ j = omega (arith, ik, some_inj i j x) in
            subst (λ n. Holds (base_pos cache_size pos) n bs) kj
              (b, at, same, h k b at lo ∙ ap (loaded_data cache_size file) same)),
      )

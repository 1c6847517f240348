-- ===== src/FileLoader/Cache/Seeking.antt =====
-- safeSeek leaves the cache at the position it is given.
use evolution078ots.Prelude.{
  some_inj, ℕ, zero, suc, ◌+◌, ◌-◌, ◌≤◌, ◌<◌, Option, none, some, List, [], ◌∷◌, length, take, drop,
  get_elem?, ◌≡◌, refl, sym, ap, subst, ◌∙◌, arith,
}
use evolution078ots.FileLoader.Cache.{
  Block, Cache, base_pos, loaded_data, get_cache_block, seek_block, safe_seek,
}
use evolution078ots.FileLoader.Cache.Blocks.{base_pos_range, AllTrue}
use evolution078ots.FileLoader.Cache.Offsets.{
  rest_of, short_le, at_least_one, rest_of_same, rest_small,
}
use evolution078ots.FileLoader.Cache.Lookup.{Holds, IsFound, get_cache_block_lem}

take_short : (n k : ℕ) (l : List ℕ) → length (take n l) < k → k ≤ n → length l < k
take_short zero k l h s = absurd (omega (arith, h, s))
take_short (suc n) k [] h s = h
take_short (suc n) zero (x ∷ l) h s = absurd (omega (arith, h))
take_short (suc n) (suc k) (x ∷ l) h s =
    omega (arith, take_short n k l (omega (arith, h)) (omega (arith, s)))

drop_short : (n k : ℕ) (l : List ℕ) → length (drop n l) < k → length l < n + k
drop_short zero k l h = omega (arith, h)
drop_short (suc n) k [] h = omega arith
drop_short (suc n) k (x ∷ l) h = omega (arith, drop_short n k l h)

not_beyond : (n m : ℕ) → n ≤ m → ¬ (m < n)
not_beyond n m h k = absurd (omega (arith, h, k))

beyond_file :
    (cache_size : ℕ) (file : List ℕ) (base pos : ℕ)
    → base ≤ pos
    → pos - base < cache_size
    → length (loaded_data cache_size file base) < pos - base
    → length file < pos
beyond_file cache_size file base pos le small h =
    subst (λ n. length file < n) (rest_of base pos le)
      (drop_short base (pos - base) file
        (take_short cache_size (pos - base) (drop base file) h (short_le _ _ small)))

module _ (cache_size : ℕ) (file : List ℕ) where
  -- The next byte is the file's at `pos`.
  abbrev pub IsAt : ℕ → Cache → Type 0
  IsAt pos c =
      AllTrue cache_size file c.blocks
      × (1 ≤ length c.blocks)
      × ((i : ℕ) × (base : ℕ) × (c.index ≡ some i)
          × Holds cache_size file base i c.blocks
          × (base + c.offset ≡ pos))

  abbrev pub IsSought : ℕ → Option (ℕ × Block) × Cache → Type 0
  IsSought pos r =
      (r.0 ≡ none → length file < pos)
      × AllTrue cache_size file (r.1.blocks)
      × (1 ≤ length (r.1.blocks))
      × ((i : ℕ) (b : Block)
          → r.0 ≡ some (i, b)
          → (get_elem? (r.1.blocks) i ≡ some b)
            × (r.1.index ≡ some i)
            × (b.bytes ≡ loaded_data cache_size file b.base)
            × (b.base + r.1.offset ≡ pos)
            × (r.1.offset < cache_size))

  module _ (sized : 1 ≤ cache_size) where
    pub seek_block_lem :
        (pos : ℕ) (c : Cache)
        → AllTrue cache_size file c.blocks
        → 1 ≤ length c.blocks
        → IsSought pos (seek_block cache_size file pos c)
    unfolding seek_block
    seek_block_lem pos c h l =
        go (get_cache_block cache_size file pos c.blocks)
          (get_cache_block_lem cache_size file pos c.blocks l h)
      where
        base : ℕ
        base = base_pos cache_size pos

        range : (base ≤ pos) × (pos - base < cache_size)
        range = base_pos_range cache_size pos sized

        go :
            (r : Option ℕ × List Block)
            → IsFound cache_size file pos c.blocks r
            → IsSought pos (elim (r.0) [
              | none ↦ (none, record c { blocks = r.1 })
              | some i ↦ elim (get_elem? (r.1) i) [
                | none ↦ (none, record c { blocks = r.1 })
                | some b ↦
                    (some (i, b), record { blocks = r.1; index = some i; offset = pos - b.base })
              ]
            ])
        go (none, bs) (true_blocks, same, short, _) = (
          (λ _. beyond_file cache_size file base pos (range.0) (range.1) (short refl)),
          true_blocks,
          at_least_one _ _ same l,
          (λ i b x. absurd cc),
        )
        go (some i, bs) (true_blocks, same, _, holds) =
            let (b, at, b_base, bytes) = holds i refl in
            found_block b at b_base bytes (get_elem? bs i) refl
          where
            found_block :
                (b : Block)
                → get_elem? bs i ≡ some b
                → b.base ≡ base
                → b.bytes ≡ loaded_data cache_size file base
                → (o : Option Block) → get_elem? bs i ≡ o
                → IsSought pos (elim o [
                  | none ↦ (none, record c { blocks = bs })
                  | some b ↦
                      (some (i, b), record { blocks = bs; index = some i; offset = pos - b.base })
                ])
            found_block b at b_base bytes none e = absurd cc
            found_block b at b_base bytes (some b') e =
                let bb : b ≡ b' = some_inj b b' (sym at ∙ e) in
                let base' : b'.base ≡ base = sym (ap (λ b. b.base) bb) ∙ b_base in
                (
                  (λ x. absurd cc),
                  true_blocks,
                  at_least_one _ _ same l,
                  (λ j d x.
                      subst
                        (λ p.
                          (get_elem? bs (p.0) ≡ some (p.1))
                          × (some i ≡ some (p.0))
                          × (p.1.bytes ≡ loaded_data cache_size file (p.1.base))
                          × (p.1.base + (pos - b'.base) ≡ pos)
                          × (pos - b'.base < cache_size))
                        (some_inj (i, b') (j, d) x)
                        (
                          e,
                          refl,
                          sym (ap (λ b. b.bytes) bb)
                              ∙ bytes
                              ∙ sym (ap (loaded_data cache_size file) base'),
                          rest_of_same base (b'.base) pos base' (range.0),
                          rest_small base (b'.base) pos cache_size base' (range.1),
                        )),
                )

    -- safeSeek succeeds up to the end of the file, and leaves the cache there.
    pub safe_seek_lem :
        (pos : ℕ) (c : Cache)
        → AllTrue cache_size file c.blocks
        → 1 ≤ length c.blocks
        → pos ≤ length file
        → (c' : Cache) × (safe_seek cache_size file pos c ≡ some c') × IsAt pos c'
    unfolding safe_seek
    safe_seek_lem pos c h l inside_file =
        go (seek_block cache_size file pos c) (seek_block_lem pos c h l)
      where
        go :
            (r : Option (ℕ × Block) × Cache)
            → IsSought pos r
            → (c' : Cache) × (elim (r.0) [ none ↦ none | some _ ↦ some (r.1) ] ≡ some c')
              × IsAt pos c'
        go (none, d) (beyond, _, _, _) = absurd (not_beyond _ _ inside_file (beyond refl))
        go (some (i, b), d) (_, t, n, at) =
            let (get, index, bytes, here, small) = at i b refl in
            (d, refl, (t, n, (i, b.base, index, (b, get, refl, bytes), here)))

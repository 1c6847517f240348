-- ===== src/FileLoader/Cache/Examples.antt =====
-- The theorem about the cached reading at a concrete file.
use evolution078ots.Prelude.{some_inj, ℕ, zero, suc, ◌≡◌, some, List, [], ◌∷◌, arith, true, ap}
use evolution078ots.FileLoader.Cache.{
  Cache, Block, empty_block, open_cache, cache_size_for, safe_seek,
}
use evolution078ots.FileLoader.Cache.Blocks.{AllTrue}
use evolution078ots.FileLoader.Cache.Reading.{read_bytes, safe_seek-read_bytes}

empty_block_not_loaded : (b : Block) → some empty_block ≡ some b → ¬ (b.loaded ≡ true)
empty_block_not_loaded b at loaded =
    absurd (cc (ap (λ b. b.loaded) (some_inj empty_block b at), loaded))

open_cache-AllTrue : (cache_size : ℕ) (file : List ℕ) → AllTrue cache_size file (open_cache.blocks)
unfolding open_cache
open_cache-AllTrue cache_size file zero b at loaded = absurd (empty_block_not_loaded b at loaded)
open_cache-AllTrue cache_size file (suc zero) b at loaded =
    absurd (empty_block_not_loaded b at loaded)
open_cache-AllTrue cache_size file (suc (suc zero)) b at loaded =
    absurd (empty_block_not_loaded b at loaded)
open_cache-AllTrue cache_size file (suc (suc (suc k))) b at loaded = absurd cc

abbrev some_file : List ℕ
some_file = 0 ∷ 0 ∷ 0 ∷ 0 ∷ 0xFE ∷ 1 ∷ 0xFF ∷ []

safe_seek-read_bytes_example :
    (c' : Cache) × (safe_seek (cache_size_for 7) some_file 4 open_cache ≡ some c')
    × (read_bytes (cache_size_for 7) some_file 5 c' ≡ 0xFE ∷ 1 ∷ 0xFF ∷ [])
unfolding open_cache
safe_seek-read_bytes_example =
    safe_seek-read_bytes some_file 4 5 open_cache (open_cache-AllTrue (cache_size_for 7) some_file)
      (omega arith) (omega arith)

-- ===== src/Net/Cipher/Blocks.antt =====
-- The loops of the cipher as a count of blocks of eight bytes, one after the other.
use evolution078ots.Prelude.{
  ℕ, zero, suc, ◌+◌, ◌*◌, ◌≤◌, ◌<◌, ◌≡◌, refl, ◌⊎◌, arith, lt→ltb, ltb-eq_false, ap, ◌∙◌,
}
use evolution078ots.Net.Memory.{Memory, store32}
use evolution078ots.Net.Xtea.{Key}
use evolution078ots.Net.Cipher.{word_loop, encrypt_at, decrypt_at}

unfoldable pub blocks : (Memory → ℕ → Memory) → ℕ → ℕ → Memory → Memory
blocks body zero a m = m
blocks body (suc k) a m = blocks body k (a + 8) (body m a)

-- The loop makes `k` turns, where `2 * k` words reach the limit or one word past it.
pub word_loop-blocks :
    (body : Memory → ℕ → Memory) (k fuel limit r : ℕ) (m : Memory)
    → k ≤ fuel
    → limit ≤ r + 2 * k
    → r + 2 * k < limit + 2
    → word_loop body fuel limit r m ≡ blocks body k (2 + 4 * r) m
unfolding word_loop blocks
word_loop-blocks body zero zero limit r m h lo hi = refl
word_loop-blocks body zero (suc fuel) limit r m h lo hi = rw (ltb-eq_false r limit (omega arith))
word_loop-blocks body (suc k) zero limit r m h lo hi = absurd (omega arith)
word_loop-blocks body (suc k) (suc fuel) limit r m h lo hi = rw (lt→ltb r limit (omega arith)) (
    word_loop-blocks body k fuel limit (r + 2) (body m (2 + 4 * r)) (omega arith) (omega arith)
      (omega arith)
    ∙ ap (λ a. blocks body k a (body m (2 + 4 * r))) (next r))
  where
    next : (r : ℕ) → 2 + 4 * (r + 2) ≡ 2 + 4 * r + 8
    next r = omega arith

-- A turn that writes only its own eight bytes.
abbrev pub IsLocal : (Memory → ℕ → Memory) → Type 0
IsLocal body = (m : Memory) (a i : ℕ) → (i < a) ⊎ (a + 8 ≤ i) → body m a i ≡ m i

pub encrypt_at-IsLocal : (k : Key) → IsLocal (encrypt_at k)
unfolding encrypt_at store32
encrypt_at-IsLocal k m a i h = ground arith

pub decrypt_at-IsLocal : (k : Key) → IsLocal (decrypt_at k)
unfolding decrypt_at store32
decrypt_at-IsLocal k m a i h = ground arith

pub blocks_outside :
    (body : Memory → ℕ → Memory) (k a i : ℕ) (m : Memory)
    → IsLocal body
    → (i < a) ⊎ (a + 8 * k ≤ i)
    → blocks body k a m i ≡ m i
unfolding blocks
blocks_outside body zero a i m local h = refl
blocks_outside body (suc k) a i m local h =
    blocks_outside body k (a + 8) i (body m a) local (outside k a i h)
    ∙ local m a i (outside' k a i h)
  where
    outside : (k a i : ℕ) → (i < a) ⊎ (a + 8 * suc k ≤ i) → (i < a + 8) ⊎ (a + 8 + 8 * k ≤ i)
    outside k a i h = ground arith

    outside' : (k a i : ℕ) → (i < a) ⊎ (a + 8 * suc k ≤ i) → (i < a) ⊎ (a + 8 ≤ i)
    outside' k a i h = ground arith

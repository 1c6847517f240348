-- ===== src/Net/Cipher/Inverse.antt =====
-- Deciphering a buffer gives back the bytes that were enciphered.
use evolution078ots.Prelude.{ℕ, zero, suc, ◌+◌, ◌*◌, ◌^◌, ◌≤◌, ◌<◌, ◌≡◌, ◌∙◌, inl, inr, arith, ◌⊎◌}
use evolution078ots.Net.Memory.{
  Memory, Agree, AreBytes, load32, store32, load32-store32, store32_outside,
}
use evolution078ots.Net.Xtea.{Key, Block, encrypt_block, decrypt_block}
use evolution078ots.Net.Xtea.Inverse.{decrypt-encrypt_block, encrypt_block-AreWords, start}
use evolution078ots.Net.Cipher.{encrypt_at, decrypt_at}
use evolution078ots.Net.Cipher.Blocks.{
  blocks, blocks_outside, encrypt_at-IsLocal, decrypt_at-IsLocal,
}

load32-lt : (m : Memory) (a : ℕ) → AreBytes m → load32 m a < 2 ^ 32
unfolding load32
load32-lt m a h = omega (arith, h a, h (a + 1), h (a + 2), h (a + 3))

load32-Agree : (m n : Memory) (a : ℕ) → Agree a (a + 4) m n → load32 m a ≡ load32 n a
unfolding load32
load32-Agree m n a e = ground (arith, e a, e (a + 1), e (a + 2), e (a + 3))

-- The bytes of a word that is written where it was read.
store32-load32 :
    (m n : Memory) (a i : ℕ) → AreBytes m → a ≤ i → i < a + 4 → store32 n a (load32 m a) i ≡ m i
unfolding store32 load32
store32-load32 m n a i h lo hi = ground (arith, h a, h (a + 1), h (a + 2), h (a + 3))

store32-AreBytes : (m : Memory) (a v : ℕ) → AreBytes m → AreBytes (store32 m a v)
unfolding store32
store32-AreBytes m a v h i = ground (arith, h i)

encrypt_at-AreBytes : (k : Key) (m : Memory) (a : ℕ) → AreBytes m → AreBytes (encrypt_at k m a)
unfolding encrypt_at
encrypt_at-AreBytes k m a h = store32-AreBytes _ _ _ (store32-AreBytes _ _ _ h)

module _ (k : Key) (m n : Memory) (a : ℕ) (bytes : AreBytes m)
    (same : Agree a (a + 8) n (encrypt_at k m a)) where
  b : Block
  b = encrypt_block k (load32 m a) (load32 m (a + 4))

  words : (b.v0 < 2 ^ 32) × (b.v1 < 2 ^ 32)
  unfolding b
  words =
      encrypt_block-AreWords k (load32 m a) (load32 m (a + 4)) (load32-lt m a bytes)
        (load32-lt m (a + 4) bytes)

  read_v0 : load32 n a ≡ b.v0
  unfolding encrypt_at b
  read_v0 =
      load32-Agree n (store32 m a b.v0) a (λ i lo hi.
        same i lo (omega arith) ∙ store32_outside (store32 m a b.v0) (a + 4) b.v1 i (inl hi))
      ∙ load32-store32 m a b.v0 words.0

  read_v1 : load32 n (a + 4) ≡ b.v1
  unfolding encrypt_at b
  read_v1 =
      load32-Agree n (store32 (store32 m a b.v0) (a + 4) b.v1) (a + 4)
        (λ i lo hi. same i (omega arith) (omega arith))
      ∙ load32-store32 (store32 m a b.v0) (a + 4) b.v1 words.1

  plain : decrypt_block k (load32 n a) (load32 n (a + 4)) ≡ start (load32 m a) (load32 m (a + 4))
  unfolding b
  plain =
      rw (read_v0, read_v1)
        (decrypt-encrypt_block k (load32 m a) (load32 m (a + 4)) (load32-lt m a bytes)
          (load32-lt m (a + 4) bytes))

  -- One block.
  decrypt-encrypt_at : (i : ℕ) → a ≤ i → i < a + 8 → decrypt_at k n a i ≡ m i
  unfolding decrypt_at
  decrypt-encrypt_at i lo hi = rw plain (halves i lo hi)
    where
      halves :
          (i : ℕ)
          → a ≤ i
          → i < a + 8
          → store32 (store32 n a (load32 m a)) (a + 4) (load32 m (a + 4)) i ≡ m i
      halves i lo hi = ground (
        arith,
        store32-load32 m n a i bytes,
        store32-load32 m (store32 n a (load32 m a)) (a + 4) i bytes,
        store32_outside (store32 n a (load32 m a)) (a + 4) (load32 m (a + 4)) i,
      )

-- Any number of blocks, in any buffer that agrees with the enciphered one on them.
pub decrypt-encrypt_blocks :
    (k : Key) (c a : ℕ) (m n : Memory)
    → AreBytes m
    → Agree a (a + 8 * c) n (blocks (encrypt_at k) c a m)
    → Agree a (a + 8 * c) (blocks (decrypt_at k) c a n) m
unfolding blocks
decrypt-encrypt_blocks k zero a m n h e i lo hi = absurd (omega arith)
decrypt-encrypt_blocks k (suc c) a m n h e i lo hi = elim split [
  | inl low ↦
      blocks_outside (decrypt_at k) c (a + 8) i (decrypt_at k n a) (decrypt_at-IsLocal k) (inl low)
      ∙ decrypt-encrypt_at k m n a h first i lo low
  | inr high ↦
      decrypt-encrypt_blocks k c (a + 8) (encrypt_at k m a) (decrypt_at k n a)
        (encrypt_at-AreBytes k m a h)
        (λ j lo hi. decrypt_at-IsLocal k n a j (inr lo) ∙ e j (omega arith) (omega arith)) i high
        (omega arith)
      ∙ encrypt_at-IsLocal k m a i (inr high)
]
  where
    split : (i < a + 8) ⊎ (a + 8 ≤ i)
    split = omega arith

    first : Agree a (a + 8) n (encrypt_at k m a)
    first j lo hi =
        e j lo (omega arith)
        ∙ blocks_outside (encrypt_at k) c (a + 8) j (encrypt_at k m a) (encrypt_at-IsLocal k)
            (inl hi)

pub encrypt_blocks-AreBytes :
    (k : Key) (c a : ℕ) (m : Memory) → AreBytes m → AreBytes (blocks (encrypt_at k) c a m)
unfolding blocks
encrypt_blocks-AreBytes k zero a m h = h
encrypt_blocks-AreBytes k (suc c) a m h =
    encrypt_blocks-AreBytes k c (a + 8) (encrypt_at k m a) (encrypt_at-AreBytes k m a h)

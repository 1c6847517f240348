-- ===== src/Net/Xtea/Inverse.antt =====
-- Deciphering a block undoes enciphering it, under every key.
use evolution078ots.Prelude.{ℕ, zero, suc, ◌^◌, ◌<◌, ◌≡◌, refl, ap, subst, ◌∙◌, arith}
use evolution078ots.Net.Xtea.{
  Key, Block, sub32, delta, full_sum, encrypt_round, decrypt_round, encrypt_rounds, decrypt_rounds,
  encrypt_block, decrypt_block,
}

-- The fields of a block are uint32_t.
abbrev pub AreWords : Block → Type 0
AreWords s = (s.v0 < 2 ^ 32) × (s.v1 < 2 ^ 32) × (s.sum < 2 ^ 32)

encrypt_round-AreWords : (k : Key) (s : Block) → AreWords (encrypt_round k s)
unfolding encrypt_round
encrypt_round-AreWords k s = omega arith

decrypt-encrypt_round : (k : Key) (s : Block) → AreWords s → decrypt_round k (encrypt_round k s) ≡ s
unfolding encrypt_round decrypt_round
decrypt-encrypt_round k s h = ground arith

decrypt_rounds_last :
    (n : ℕ) (k : Key) (s : Block)
    → decrypt_rounds (suc n) k s ≡ decrypt_round k (decrypt_rounds n k s)
unfolding decrypt_rounds
decrypt_rounds_last zero k s = refl
decrypt_rounds_last (suc n) k s = decrypt_rounds_last n k (decrypt_round k s)

decrypt-encrypt_rounds :
    (n : ℕ) (k : Key) (s : Block) → AreWords s → decrypt_rounds n k (encrypt_rounds n k s) ≡ s
unfolding encrypt_rounds decrypt_rounds
decrypt-encrypt_rounds zero k s h = refl
decrypt-encrypt_rounds (suc n) k s h =
    decrypt_rounds_last n k (encrypt_rounds (suc n) k s)
    ∙ ap (decrypt_round k)
        (decrypt-encrypt_rounds n k (encrypt_round k s) (encrypt_round-AreWords k s))
    ∙ decrypt-encrypt_round k s h

encrypt_rounds-AreWords :
    (n : ℕ) (k : Key) (s : Block) → AreWords s → AreWords (encrypt_rounds n k s)
unfolding encrypt_rounds
encrypt_rounds-AreWords zero k s h = h
encrypt_rounds-AreWords (suc n) k s h =
    encrypt_rounds-AreWords n k (encrypt_round k s) (encrypt_round-AreWords k s)

-- The running sum does not depend on the data.
sums : ℕ → ℕ → ℕ
sums zero t = t
sums (suc n) t = sums n (sub32 t delta)

sum-encrypt_rounds : (n : ℕ) (k : Key) (s : Block) → (encrypt_rounds n k s).sum ≡ sums n s.sum
unfolding encrypt_rounds encrypt_round sums
sum-encrypt_rounds zero k s = refl
sum-encrypt_rounds (suc n) k s = sum-encrypt_rounds n k (encrypt_round k s)

sums_full : sums 32 0 ≡ full_sum
unfolding sums
sums_full = refl

abbrev pub start : ℕ → ℕ → Block
start v0 v1 = record { v0 = v0; v1 = v1; sum = 0 }

sum-encrypt_block : (k : Key) (v0 v1 : ℕ) → (encrypt_block k v0 v1).sum ≡ full_sum
unfolding encrypt_block
sum-encrypt_block k v0 v1 = sum-encrypt_rounds 32 k (start v0 v1) ∙ sums_full

pub encrypt_block-AreWords :
    (k : Key) (v0 v1 : ℕ)
    → v0 < 2 ^ 32
    → v1 < 2 ^ 32
    → ((encrypt_block k v0 v1).v0 < 2 ^ 32) × ((encrypt_block k v0 v1).v1 < 2 ^ 32)
unfolding encrypt_block
encrypt_block-AreWords k v0 v1 h0 h1 =
    let w = encrypt_rounds-AreWords 32 k (start v0 v1) (h0, h1, omega arith) in (w.0, w.1)

-- For every key and every pair of 32-bit words, 32 rounds of deciphering, which start from the
-- constant 0xC6EF3720, give back the words that 32 rounds of enciphering took, and the sum 0.
pub decrypt-encrypt_block :
    (k : Key) (v0 v1 : ℕ)
    → v0 < 2 ^ 32
    → v1 < 2 ^ 32
    → decrypt_block k (encrypt_block k v0 v1).v0 (encrypt_block k v0 v1).v1 ≡ start v0 v1
unfolding decrypt_block encrypt_block
decrypt-encrypt_block k v0 v1 h0 h1 =
    subst (λ t. decrypt_rounds 32 k (record { v0 = e.v0; v1 = e.v1; sum = t }) ≡ start v0 v1)
      (sum-encrypt_block k v0 v1) (decrypt-encrypt_rounds 32 k (start v0 v1) (h0, h1, omega arith))
  where
    e : Block
    e = encrypt_block k v0 v1

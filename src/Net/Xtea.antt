-- ===== src/Net/Xtea.antt =====
-- The block cipher of source/networkmessage.cpp: the bodies of the loops of XTEA_encrypt and
-- XTEA_decrypt. All words are uint32_t, and every sum wraps at 2 ^ 32.
use Prim.Native.Nat.{bit_xor}
use evolution078ots.Prelude.{ℕ, zero, suc, ◌+◌, ◌-◌, ◌*◌, ◌/◌, ◌%◌, ◌^◌}
pub mod Inverse

abbrev pub Key : Type 0
Key = ℕ → ℕ

pub record Block : Type 0 where
  pub v0 : ℕ
  pub v1 : ℕ
  pub sum : ℕ

abbrev add32 : ℕ → ℕ → ℕ
add32 a b = (a + b) % 2 ^ 32

abbrev sub32 : ℕ → ℕ → ℕ
sub32 a b = (a + 2 ^ 32 - b % 2 ^ 32) % 2 ^ 32

abbrev delta : ℕ
delta = 0x61C88647

abbrev full_sum : ℕ
full_sum = 0xC6EF3720

-- (v << 4 ^ v >> 5) + v
mix : ℕ → ℕ
mix v = add32 (bit_xor (v * 16 % 2 ^ 32) (v / 32)) v

-- What a round adds to v0, from v1: ... ^ (sum + k[sum & 3])
even_term : Key → ℕ → ℕ → ℕ
even_term k sum v = bit_xor (mix v) (add32 sum (k (sum % 4)))

-- What a round adds to v1, from v0: ... ^ (sum + k[sum>>11 & 3])
odd_term : Key → ℕ → ℕ → ℕ
odd_term k sum v = bit_xor (mix v) (add32 sum (k (sum / 2048 % 4)))

encrypt_round : Key → Block → Block
encrypt_round k s =
    let v0 : ℕ = add32 s.v0 (even_term k s.sum s.v1) in
    let sum : ℕ = sub32 s.sum delta in
    let v1 : ℕ = add32 s.v1 (odd_term k sum v0) in record { v0 = v0; v1 = v1; sum = sum }

decrypt_round : Key → Block → Block
decrypt_round k s =
    let v1 : ℕ = sub32 s.v1 (odd_term k s.sum s.v0) in
    let sum : ℕ = add32 s.sum delta in
    let v0 : ℕ = sub32 s.v0 (even_term k sum v1) in record { v0 = v0; v1 = v1; sum = sum }

-- `for(long i = 0; i<32; i++)`, by the rounds left.
encrypt_rounds : ℕ → Key → Block → Block
encrypt_rounds zero k s = s
encrypt_rounds (suc n) k s = encrypt_rounds n k (encrypt_round k s)

decrypt_rounds : ℕ → Key → Block → Block
decrypt_rounds zero k s = s
decrypt_rounds (suc n) k s = decrypt_rounds n k (decrypt_round k s)

pub encrypt_block : Key → ℕ → ℕ → Block
encrypt_block k v0 v1 = encrypt_rounds 32 k (record { v0 = v0; v1 = v1; sum = 0 })

pub decrypt_block : Key → ℕ → ℕ → Block
decrypt_block k v0 v1 = decrypt_rounds 32 k (record { v0 = v0; v1 = v1; sum = full_sum })

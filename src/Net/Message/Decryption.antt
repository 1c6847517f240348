-- ===== src/Net/Message/Decryption.antt =====
-- RSA_decrypt of source/networkmessage.cpp: what it does to a packet.
use evolution078ots.Prelude.{
  ℕ, ◌+◌, ◌≤◌, ◌<◌, ◌≡◌, Bool, true, false, Option, none, some, List, ◌==◌, length, arith, ◌⊎◌, inl,
  inr, refl, Option-cases, Bool-cases,
}
use evolution078ots.Net.Memory.{store_bytes, load_bytes, store_bytes_outside, length-load_bytes}
use evolution078ots.Net.Message.{
  NetworkMessage, Rsa, rsa_decrypt, decrypt_with, check_first, get_byte,
}

-- The object writes 128 bytes back where it is given 128.
abbrev pub IsRsa : Option Rsa → Type 0
IsRsa none = Unit
IsRsa (some rsa) =
    (bytes plain : List ℕ) → length bytes ≡ 128 → rsa bytes ≡ some plain → length plain ≡ 128

-- A message that failed, and one whose position has passed the first byte of the plain text.
abbrev pub Decrypted : NetworkMessage → Bool × NetworkMessage → Type 0
Decrypted m (ok, m') =
    (m'.msg_size ≡ m.msg_size)
    × ((i : ℕ) → (i < m.read_pos) ⊎ (m.read_pos + 128 ≤ i) → m'.msg_buf i ≡ m.msg_buf i)
    × ((ok ≡ false)
        ⊎ ((ok ≡ true)
            × (m.msg_size ≡ m.read_pos + 128)
            × (m'.read_pos ≡ m.read_pos + 1)
            × (m'.msg_buf m.read_pos ≡ 0)))

kept : (m : NetworkMessage) → Decrypted m (false, m)
kept m = (refl, λ i h. refl, inl refl)

plain-Decrypted :
    (m : NetworkMessage) (plain : List ℕ)
    → m.msg_size ≡ m.read_pos + 128
    → length plain ≡ 128
    → Decrypted m (check_first (record m { msg_buf = store_bytes m.msg_buf m.read_pos plain }))
unfolding check_first get_byte
plain-Decrypted m plain size len =
    elim (Bool-cases (store_bytes m.msg_buf m.read_pos plain m.read_pos == 0)) [
      | inl first ↦
          rw (check_first, first, Decrypted)
            (refl, outside, inr (refl, size, refl, ground (arith, first)))
      | inr other ↦ rw (check_first, other, Decrypted) (refl, outside, inl refl)
    ]
  where
    outside :
        (i : ℕ)
        → (i < m.read_pos) ⊎ (m.read_pos + 128 ≤ i)
        → store_bytes m.msg_buf m.read_pos plain i ≡ m.msg_buf i
    outside i h = store_bytes_outside m.msg_buf m.read_pos i plain (ground (arith, h, len))

with_rsa :
    (m : NetworkMessage) (o : Option Rsa)
    → IsRsa o
    → m.msg_size ≡ m.read_pos + 128
    → Decrypted m (decrypt_with m o)
unfolding decrypt_with
with_rsa m none h size = kept m
with_rsa m (some rsa) h size = elim (Option-cases (rsa (load_bytes m.msg_buf m.read_pos 128))) [
  | inl e ↦ rw (decrypt_with, e) (kept m)
  | inr (plain, e) ↦
      rw (decrypt_with, e)
        (plain-Decrypted m plain size (
          h (load_bytes m.msg_buf m.read_pos 128) plain (length-load_bytes m.msg_buf m.read_pos 128)
            e))
]

-- With an RSA object that gives 128 bytes for 128, or with none: RSA_decrypt keeps m_MsgSize and
-- changes no byte but the 128 from the position on; it succeeds only on a packet that ends with these
-- 128 bytes, and then the first byte of the plain text is 0 and the position is behind it.
pub rsa_decrypt-Decrypted : (m : NetworkMessage) → IsRsa m.rsa → Decrypted m (rsa_decrypt m)
unfolding rsa_decrypt
rsa_decrypt-Decrypted m h = elim (Bool-cases (m.msg_size == 128 + m.read_pos)) [
  | inl size ↦ rw (rsa_decrypt, size) (with_rsa m m.rsa h (ground (arith, size)))
  | inr other ↦ rw (rsa_decrypt, other) (kept m)
]

-- ===== src/Net/Cipher.antt =====
-- XTEA_encrypt and XTEA_decrypt of source/networkmessage.cpp: the cipher over the buffer of a packet.
use evolution078ots.Prelude.{ℕ, zero, suc, ◌+◌, ◌-◌, ◌*◌, ◌/◌, ◌%◌, not, ltb, ◌==◌, if◌then◌else◌}
use evolution078ots.Net.Memory.{Memory, load32, store32, store16}
use evolution078ots.Net.Xtea.{Key, encrypt_block, decrypt_block}
use evolution078ots.Net.Message.{NetworkMessage}
pub mod Blocks
pub mod Inverse

-- One turn of the outer loops: the two words at address `a` are replaced.
pub encrypt_at : Key → Memory → ℕ → Memory
encrypt_at k m a =
    let b = encrypt_block k (load32 m a) (load32 m (a + 4)) in
    store32 (store32 m a b.v0) (a + 4) b.v1

pub decrypt_at : Key → Memory → ℕ → Memory
decrypt_at k m a =
    let b = decrypt_block k (load32 m a) (load32 m (a + 4)) in
    store32 (store32 m a b.v0) (a + 4) b.v1

-- `while(read_pos < limit) { ...; read_pos = read_pos + 2; }` over the words of `&m_MsgBuf[2]`,
-- with fuel. A fuel of `limit` is enough, since `read_pos` grows in each turn.
pub word_loop : (Memory → ℕ → Memory) → ℕ → ℕ → ℕ → Memory → Memory
word_loop body zero limit read_pos m = m
word_loop body (suc fuel) limit read_pos m =
    let rest = word_loop body fuel limit (read_pos + 2) (body m (2 + 4 * read_pos)) in
    if ltb read_pos limit then rest else m

-- memset of `n` bytes to 0.
pub store_zeros : Memory → ℕ → ℕ → Memory
store_zeros m a n i = if ltb i a then m i else if ltb i (a + n) then 0 else m i

-- Bytes are added until the length and the payload are a multiple of 8.
unfoldable pub pad : NetworkMessage → NetworkMessage
unfolding store_zeros
pad m =
    let n = 8 - (m.msg_size + 2) % 8 in
    if not ((m.msg_size + 2) % 8 == 0)
    then record m { msg_buf = store_zeros m.msg_buf m.read_pos n; msg_size = m.msg_size + n }
    else m

unfoldable pub xtea_encrypt : NetworkMessage → NetworkMessage
xtea_encrypt m =
    let p = pad m in
    let buf = word_loop (encrypt_at m.key) (p.msg_size / 4) (p.msg_size / 4) 0 p.msg_buf in
    let msg_size = p.msg_size + 2 in
    record p { msg_buf = store16 buf 0 msg_size; msg_size = msg_size }

unfoldable pub xtea_decrypt : NetworkMessage → NetworkMessage
xtea_decrypt m = record m {
  msg_buf = word_loop (decrypt_at m.key) (m.msg_size / 4) (m.msg_size / 4) 0 m.msg_buf;
}

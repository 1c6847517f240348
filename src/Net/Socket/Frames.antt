-- ===== src/Net/Socket/Frames.antt =====
-- An enciphered frame on the wire: what the writer makes of a packet, and what a reader makes of it.
use evolution078ots.Prelude.{ℕ, ◌+◌, ◌-◌, ◌*◌, ◌/◌, ◌%◌, ◌≤◌, ◌<◌, ◌≡◌, [], ◌∷◌, true, inl, arith}
use evolution078ots.Net.Memory.{
  Memory, AreBytes, Agree, load16, store16, store_bytes, load_bytes, store_bytes_outside,
  store_bytes-load_bytes, length-load_bytes,
}
use evolution078ots.Net.Xtea.{Key}
use evolution078ots.Net.Message.{NetworkMessage, max_size, get_u16}
use evolution078ots.Net.Cipher.{encrypt_at, decrypt_at, pad, xtea_encrypt, xtea_decrypt}
use evolution078ots.Net.Cipher.Blocks.{blocks, word_loop-blocks}
use evolution078ots.Net.Cipher.Inverse.{decrypt-encrypt_blocks}
use evolution078ots.Net.Socket.{received, open_frame, read_body, read_from_socket}

-- How many blocks the length and the payload take.
abbrev pub block_count : ℕ → ℕ
block_count size = (size + 9) / 8

pub msg_size-pad : (m : NetworkMessage) → (pad m).msg_size + 2 ≡ 8 * block_count m.msg_size
unfolding pad
msg_size-pad m = ground arith

pub pad_below : (m : NetworkMessage) (i : ℕ) → i < m.read_pos → (pad m).msg_buf i ≡ m.msg_buf i
unfolding pad
pad_below m i h = ground arith

pub pad-AreBytes : (m : NetworkMessage) → AreBytes m.msg_buf → AreBytes (pad m).msg_buf
unfolding pad
pad-AreBytes m h i = ground (arith, h i)

pub msg_size-xtea_encrypt :
    (m : NetworkMessage) → (xtea_encrypt m).msg_size ≡ 8 * block_count m.msg_size
unfolding xtea_encrypt
msg_size-xtea_encrypt m = msg_size-pad m

pub msg_buf-xtea_encrypt :
    (m : NetworkMessage)
    → (xtea_encrypt m).msg_buf
      ≡ store16
          (blocks (encrypt_at m.key) (block_count m.msg_size) 2 (pad m).msg_buf)
          0
          (8 * block_count m.msg_size)
unfolding xtea_encrypt
msg_buf-xtea_encrypt m =
    let size = msg_size-pad m in
    rw (
      size,
      word_loop-blocks (encrypt_at m.key) (block_count m.msg_size) ((pad m).msg_size / 4)
          ((pad m).msg_size / 4) 0 (pad m).msg_buf (omega arith) (omega arith) (omega arith),
    )

-- A reader that is handed the two bytes of a length and as many bytes of another buffer.
module _ (r : NetworkMessage) (from : Memory) (n : ℕ) (bytes : AreBytes from) (some_bytes : 0 < n)
    (fits : n ≤ max_size - 2) where
  unfoldable pub frame_buf : Memory
  frame_buf = store_bytes (store_bytes r.msg_buf 0 (n % 256 ∷ n / 256 ∷ [])) 2 (load_bytes from 2 n)

  pub frame_buf-Agree : Agree 2 (2 + n) frame_buf from
  unfolding frame_buf
  frame_buf-Agree = store_bytes-load_bytes _ from 2 n bytes

  first_length : load16 (store_bytes r.msg_buf 0 (n % 256 ∷ n / 256 ∷ [])) 0 ≡ n
  unfolding load16 store_bytes
  first_length = ground arith

  second_length : load16 frame_buf 0 ≡ n
  unfolding load16 frame_buf
  second_length =
      let m = store_bytes r.msg_buf 0 (n % 256 ∷ n / 256 ∷ []) in
      rw
        (
          store_bytes_outside m 2 0 (load_bytes from 2 n) (inl (omega arith)),
          store_bytes_outside m 2 1 (load_bytes from 2 n) (inl (omega arith)),
        )
        first_length

  pub read_frame :
      read_from_socket r (received (n % 256 ∷ n / 256 ∷ [])) (received (load_bytes from 2 n))
      ≡ open_frame (record r { msg_buf = frame_buf; msg_size = 2 + n; read_pos = 2 })
  unfolding read_from_socket read_body frame_buf
  read_frame = ground (arith, first_length, second_length, length-load_bytes from 2 n)

unfoldable pub opened : Key → ℕ → Memory → Memory
opened k c m = blocks (decrypt_at k) c 2 m

-- An enciphered frame, opened under the same key.
module _ (r : NetworkMessage) (cipher plain : Memory) (k size : ℕ) (bytes : AreBytes plain)
    (same : Agree 2 (2 + 8 * k) cipher (blocks (encrypt_at r.key) k 2 plain))
    (length_stored : load16 plain 2 ≡ size) (fits : size + 2 ≤ 8 * k) where
  pub opened-Agree : Agree 2 (2 + 8 * k) (opened r.key k cipher) plain
  unfolding opened
  opened-Agree = decrypt-encrypt_blocks r.key k 2 plain cipher bytes same

  unfoldable pub frame : NetworkMessage
  frame = record r { msg_buf = cipher; msg_size = 2 + 8 * k; read_pos = 2 }

  msg_buf-xtea_decrypt : (xtea_decrypt frame).msg_buf ≡ opened r.key k cipher
  unfolding xtea_decrypt frame opened
  msg_buf-xtea_decrypt =
      word_loop-blocks (decrypt_at r.key) k ((2 + 8 * k) / 4) ((2 + 8 * k) / 4) 0 cipher
        (omega arith) (omega arith) (omega arith)

  opened_length : load16 (opened r.key k cipher) 2 ≡ size
  unfolding load16
  opened_length = ground (arith, opened-Agree 2, opened-Agree 3)

  pub open_frame_lem :
      r.encryption_enabled ≡ true
      → r.keyset ≡ true
      → open_frame frame
        ≡ (true, record r { msg_buf = opened r.key k cipher; msg_size = size; read_pos = 4 })
  unfolding open_frame get_u16 frame xtea_decrypt
  open_frame_lem enabled keyed = ground (arith, msg_buf-xtea_decrypt, opened_length)

-- ===== src/Net/Socket/RoundTrip.antt =====
-- What one end writes to a socket is what the other end reads from it.
use evolution078ots.Prelude.{
  ℕ, suc, ◌+◌, ◌-◌, ◌*◌, ◌/◌, ◌%◌, ◌≤◌, ◌<◌, ◌≡◌, refl, ap, ◌∙◌, [], ◌∷◌, true, arith, take, drop,
}
use evolution078ots.Net.Memory.{
  Memory, AreBytes, Agree, store8, load16, store16, load_bytes, load_bytes-Agree,
}
use evolution078ots.Net.Message.{NetworkMessage, max_size}
use evolution078ots.Net.Cipher.{encrypt_at, pad, xtea_encrypt}
use evolution078ots.Net.Cipher.Blocks.{blocks}
use evolution078ots.Net.Cipher.Inverse.{encrypt_blocks-AreBytes}
use evolution078ots.Net.Socket.{
  Send, received, open_frame, read_from_socket, put_length, send_loop, write_to_socket,
}
use evolution078ots.Net.Socket.Send.{IsOpen, send_loop_all}
use evolution078ots.Net.Socket.Frames.{
  block_count, pad_below, pad-AreBytes, msg_size-xtea_encrypt, msg_buf-xtea_encrypt, frame_buf,
  frame_buf-Agree, read_frame, opened, opened-Agree, frame, open_frame_lem,
}

-- A packet that holds only what was added to it since the last Reset, and is not empty.
pub record IsFilled (m : NetworkMessage) : Type 0 where
  pub bytes : AreBytes m.msg_buf
  pub placed : m.read_pos ≡ 4 + m.msg_size
  pub nonempty : 0 < m.msg_size
  pub room : m.read_pos < max_size - 16

-- Enciphering is on, under a key.
pub record IsSecured (m : NetworkMessage) : Type 0 where
  pub enabled : m.encryption_enabled ≡ true
  pub keyed : m.keyset ≡ true

module _ (send : Send) (m r : NetworkMessage) (live : IsOpen send) (filled : IsFilled m)
    (writer : IsSecured m) (reader : IsSecured r) (shared : m.key ≡ r.key) where
  -- The length of the enciphered part.
  n : ℕ
  n = 8 * block_count m.msg_size

  padded : Memory
  padded = (pad (put_length m)).msg_buf

  body : Memory
  body = blocks (encrypt_at m.key) (block_count m.msg_size) 2 padded

  enciphered : Memory
  enciphered = store16 body 0 n

  encrypted_size : (xtea_encrypt (put_length m)).msg_size ≡ n
  unfolding n put_length
  encrypted_size = msg_size-xtea_encrypt (put_length m)

  encrypted_buf : (xtea_encrypt (put_length m)).msg_buf ≡ enciphered
  unfolding enciphered body padded n put_length
  encrypted_buf = msg_buf-xtea_encrypt (put_length m)

  sent : (write_to_socket send m).0 ≡ (true, load_bytes enciphered 0 (n + 2))
  sent = branch ∙ all ∙ ap (λ b. (true, load_bytes b 0 (n + 2))) encrypted_buf
    where
      e : NetworkMessage
      e = xtea_encrypt (put_length m)

      branch : (write_to_socket send m).0 ≡ send_loop send (e.msg_size + 2) e.msg_buf 0 e.msg_size 0
      branch =
          unfold write_to_socket in ground (arith, filled.nonempty, writer.enabled, writer.keyed)

      all :
          send_loop send (e.msg_size + 2) e.msg_buf 0 e.msg_size 0
          ≡ (true, load_bytes e.msg_buf 0 (n + 2))
      all =
          ground (
            arith,
            encrypted_size,
            send_loop_all send (e.msg_size + 2) e.msg_buf 0 e.msg_size 0 live,
          )

  n_bounds : (0 < n) × (n ≤ max_size - 2) × (m.msg_size + 2 ≤ n)
  unfolding n
  n_bounds = omega (arith, filled.nonempty, filled.room, filled.placed)

  sent_bytes : load_bytes enciphered 0 (n + 2) ≡ n % 256 ∷ n / 256 ∷ load_bytes enciphered 2 n
  unfolding load_bytes
  sent_bytes = let e : n + 2 ≡ suc (suc n) = omega arith in rw e (ground (arith, head, n_bounds))
    where
      head : (enciphered 0 ≡ n % 256) × (enciphered 1 ≡ n / 256)
      head = unfold enciphered store16 in ground (arith, n_bounds)

  padded_bytes : AreBytes padded
  unfolding padded put_length store8
  padded_bytes = pad-AreBytes (put_length m) (λ i. ground (arith, filled.bytes i))

  padded_length : load16 padded 2 ≡ m.msg_size
  unfolding padded load16 put_length store8
  padded_length = ground (
    arith,
    filled.placed,
    filled.room,
    filled.nonempty,
    pad_below (put_length m) 2,
    pad_below (put_length m) 3,
  )

  padded_payload : load_bytes padded 4 m.msg_size ≡ load_bytes m.msg_buf 4 m.msg_size
  unfolding padded put_length store8
  padded_payload =
      load_bytes-Agree _ m.msg_buf 4 m.msg_size
        (λ i lo hi. ground (arith, filled.placed, pad_below (put_length m) i))

  enciphered_bytes : AreBytes enciphered
  unfolding enciphered body store16
  enciphered_bytes i =
      let b = encrypt_blocks-AreBytes m.key (block_count m.msg_size) 2 padded padded_bytes i in
      ground arith

  arrived : Memory
  arrived = frame_buf r enciphered n enciphered_bytes n_bounds.0 n_bounds.1

  arrived-Agree :
      Agree 2 (2 + n) arrived (blocks (encrypt_at r.key) (block_count m.msg_size) 2 padded)
  unfolding arrived body blocks
  arrived-Agree i lo hi =
      frame_buf-Agree r enciphered n enciphered_bytes n_bounds.0 n_bounds.1 i lo hi
      ∙ behind i lo
      ∙ ap (λ k. blocks (encrypt_at k) (block_count m.msg_size) 2 padded i) shared
    where
      behind : (i : ℕ) → 2 ≤ i → enciphered i ≡ body i
      behind i lo = unfold enciphered store16 in ground arith

  read_back : Memory
  read_back = opened r.key (block_count m.msg_size) arrived

  same_payload : load_bytes read_back 4 m.msg_size ≡ load_bytes m.msg_buf 4 m.msg_size
  unfolding read_back n
  same_payload =
      load_bytes-Agree read_back padded 4 m.msg_size (λ i lo hi.
        opened-Agree r arrived padded (block_count m.msg_size) m.msg_size padded_bytes arrived-Agree
          padded_length n_bounds.2 i (omega arith) (omega (arith, n_bounds)))
      ∙ padded_payload

  -- A packet whose payload begins at byte 4, is not empty and leaves room for the padding, is written
  -- to an open socket under encryption: it is sent whole, whatever pieces the socket takes it in; and
  -- the other end, which holds the same key, reads the two length bytes and then the rest into a
  -- packet of the same size that carries the same payload, positioned at it.
  pub read_from_socket-write_to_socket :
      let out = (write_to_socket send m).0 in
      let got = read_from_socket r (received (take 2 out.1)) (received (drop 2 out.1)) in
      (out.0 ≡ true)
      × (got.0 ≡ true)
      × (got.1.msg_size ≡ m.msg_size)
      × (got.1.read_pos ≡ 4)
      × (load_bytes got.1.msg_buf 4 m.msg_size ≡ load_bytes m.msg_buf 4 m.msg_size)
  unfolding n frame open_frame frame_buf arrived read_back opened
  read_from_socket-write_to_socket =
      rw (sent, sent_bytes, got) (refl, refl, refl, refl, same_payload)
    where
      got :
          read_from_socket r
            (received (n % 256 ∷ n / 256 ∷ []))
            (received (load_bytes enciphered 2 n))
          ≡ (true, record r { msg_buf = read_back; msg_size = m.msg_size; read_pos = 4 })
      got =
          read_frame r enciphered n enciphered_bytes n_bounds.0 n_bounds.1
          ∙ open_frame_lem r arrived padded (block_count m.msg_size) m.msg_size padded_bytes
              arrived-Agree padded_length n_bounds.2 reader.enabled reader.keyed

-- ===== src/Net/Socket.antt =====
-- ReadFromSocket and WriteToSocket of source/networkmessage.cpp, outside Windows.
use evolution078ots.Prelude.{
  ℕ, zero, suc, ◌+◌, ◌-◌, ◌*◌, ◌/◌, ◌%◌, ◌≤◌, Bool, true, false, not, ◌||◌, List, [], ◌∷◌, ◌++◌,
  ltb, leb, ◌==◌, if◌then◌else◌, length, min,
}
use evolution078ots.Net.Memory.{Memory, store8, load16, store_bytes, load_bytes}
use evolution078ots.Net.Message.{NetworkMessage, max_size, reset, get_u16}
use evolution078ots.Net.Cipher.{xtea_encrypt, xtea_decrypt}
pub mod Send
pub mod Frames
pub mod RoundTrip

-- What a call of `recv` returns: an error (-1), or the bytes that it has put into the buffer.
pub data Recv : Type 0 where
  failed : Recv
  received : List ℕ → Recv

-- How many bytes `send` takes at an offset of the frame, of those that are offered. 0 stands for an
-- error.
abbrev pub Send : Type 0
Send = ℕ → ℕ → ℕ

-- The part of ReadFromSocket behind the two calls of `recv`.
unfoldable pub open_frame : NetworkMessage → Bool × NetworkMessage
open_frame m =
    let d = xtea_decrypt m in
    let (tmp, d') = get_u16 d in
    if not m.encryption_enabled
    then (true, m)
    else if not m.keyset
    then (false, m)
    else if not ((m.msg_size - 2) % 8 == 0)
    then (false, m)
    else if ltb (d'.msg_size - 4) tmp
    then (false, d')
    else (true, record d' { msg_size = tmp })

-- The second `recv`; on an error m_MsgSize becomes 1.
unfoldable pub read_body : NetworkMessage → Recv → Bool × NetworkMessage
read_body m failed = (false, reset m)
read_body m (received bytes) =
    let size = 2 + length bytes in
    let buf = store_bytes m.msg_buf 2 bytes in
    if leb size 2 || not (load16 buf 0 == size - 2)
    then (false, reset (record m { msg_buf = buf }))
    else open_frame (record m { msg_buf = buf; msg_size = size; read_pos = 2 })

-- The first `recv` asks for the two bytes of the length.
unfoldable pub read_from_socket : NetworkMessage → Recv → Recv → Bool × NetworkMessage
read_from_socket m failed body = (false, reset m)
read_from_socket m (received bytes) body =
    let buf = store_bytes m.msg_buf 0 bytes in
    if not (length bytes == 2) || ltb (max_size - 2) (load16 buf 0)
    then (false, reset (record m { msg_buf = buf }))
    else read_body (record m { msg_buf = buf }) body

-- The loop around `send`, with fuel; `msg_size + 2` turns are enough, since each sends a byte.
-- It returns whether all was sent, and the bytes that went out.
unfoldable pub send_loop : Send → ℕ → Memory → ℕ → ℕ → ℕ → Bool × List ℕ
send_loop send zero buf start msg_size sent = (false, [])
send_loop send (suc fuel) buf start msg_size sent =
    let b = send sent (min (msg_size + 2 - sent) 1000) in
    let out = load_bytes buf (sent + start) b in
    let rest = send_loop send fuel buf start msg_size (sent + b) in
    if b == 0
    then (false, [])
    else if ltb (sent + b) (msg_size + 2)
    then (rest.0, out ++ rest.1)
    else (true, out)

-- m_MsgBuf[2] and m_MsgBuf[3] become the length of the payload.
unfoldable pub put_length : NetworkMessage → NetworkMessage
put_length m = record m { msg_buf = store8 (store8 m.msg_buf 2 m.msg_size) 3 (m.msg_size / 256) }

unfoldable pub write_to_socket : Send → NetworkMessage → (Bool × List ℕ) × NetworkMessage
write_to_socket send m =
    let p = put_length m in
    let e = xtea_encrypt p in
    if m.msg_size == 0
    then ((true, []), m)
    else if not m.encryption_enabled
    then (send_loop send (p.msg_size + 2) p.msg_buf 2 p.msg_size 0, p)
    else if not m.keyset
    then ((false, []), p)
    else (send_loop send (e.msg_size + 2) e.msg_buf 0 e.msg_size 0, e)

-- ===== src/Net/Examples.antt =====
-- The theorems about packets at concrete inputs.
use evolution078ots.Prelude.{
  ℕ, ◌+◌, ◌%◌, ◌≡◌, refl, List, [], ◌∷◌, true, false, none, some, map, arith, take, drop,
}
use evolution078ots.Prelude.Int.{pos}
use evolution078ots.Net.Memory.{load_bytes}
use evolution078ots.Net.Xtea.{Key, encrypt_block, decrypt_block}
use evolution078ots.Net.Xtea.Inverse.{start, decrypt-encrypt_block}
use evolution078ots.Net.Message.{NetworkMessage, ItemType, reset, rsa_decrypt}
use evolution078ots.Net.Message.Decryption.{Decrypted, rsa_decrypt-Decrypted}
use evolution078ots.Net.Message.Bounds.{AddCall, Extends, add_calls, add_calls-Extends}
use evolution078ots.Net.Message.Fields.{Field, kind, put_fields, get_fields}
use evolution078ots.Net.Message.RoundTrip.{rewind, get_fields-put_fields_fresh}
use evolution078ots.Net.Socket.{received, read_from_socket, write_to_socket, send_loop}
use evolution078ots.Net.Socket.Send.{send_loop_all}
use evolution078ots.Net.Socket.RoundTrip.{read_from_socket-write_to_socket}

abbrev some_key : Key
some_key i = 0x01020304 + i

abbrev some_packet : NetworkMessage
some_packet = record {
  msg_size = 5;
  read_pos = 9;
  msg_buf = λ i. i % 256;
  encryption_enabled = true;
  keyset = true;
  key = some_key;
  rsa = none;
}

abbrev some_items : ℕ → ItemType
some_items id = record {
  client_id = id;
  stackable = true;
  is_rune = false;
  is_splash = false;
  is_fluid_container = false;
}

decrypt-encrypt_block_example :
    decrypt_block some_key (encrypt_block some_key 7 9).v0 (encrypt_block some_key 7 9).v1
    ≡ start 7 9
decrypt-encrypt_block_example = decrypt-encrypt_block some_key 7 9 (omega arith) (omega arith)

abbrev some_calls : List AddCall
some_calls = AddCall.byte 7 ∷ AddCall.string (b'h' ∷ b'i' ∷ []) ∷ AddCall.item 3 4 ∷ []

add_calls-Extends_example : Extends some_packet (add_calls some_items some_packet some_calls)
add_calls-Extends_example = add_calls-Extends some_items some_packet some_calls

abbrev some_fields : List Field
some_fields =
    Field.u16 513
    ∷ Field.string (b'h' ∷ b'i' ∷ [])
    ∷ Field.position (record { x = pos 1000; y = pos 300; z = pos 7 })
    ∷ Field.u32 70000
    ∷ []

get_fields-put_fields_fresh_example :
    get_fields (map kind some_fields) (rewind (put_fields (reset some_packet) some_fields))
    ≡ some_fields
get_fields-put_fields_fresh_example =
    get_fields-put_fields_fresh some_packet some_fields
      (omega arith, (omega arith, ((refl, refl, refl), (omega arith, tt)))) (omega arith)

-- A login packet whose RSA object gives the bytes back.
abbrev login_packet : NetworkMessage
login_packet = record some_packet {
  msg_size = 130;
  read_pos = 2;
  msg_buf = λ i. 0;
  rsa = some (λ bytes. some bytes);
}

rsa_decrypt-Decrypted_example : Decrypted login_packet (rsa_decrypt login_packet)
rsa_decrypt-Decrypted_example =
    rsa_decrypt-Decrypted login_packet (λ bytes plain len e. ground (arith, len, e))

send_loop_all_example :
    send_loop (λ off n. 1) 7 some_packet.msg_buf 4 5 0 ≡ (true, load_bytes some_packet.msg_buf 4 7)
send_loop_all_example =
    send_loop_all (λ off n. 1) 7 some_packet.msg_buf 4 5 0 (λ off n h. omega arith) (omega arith)
      (omega arith)

read_from_socket-write_to_socket_example :
    let out = (write_to_socket (λ off n. 1) some_packet).0 in
    let got = read_from_socket some_packet (received (take 2 out.1)) (received (drop 2 out.1)) in
    (out.0 ≡ true)
    × (got.0 ≡ true)
    × (got.1.msg_size ≡ 5)
    × (got.1.read_pos ≡ 4)
    × (load_bytes got.1.msg_buf 4 5 ≡ load_bytes some_packet.msg_buf 4 5)
read_from_socket-write_to_socket_example =
    read_from_socket-write_to_socket (λ off n. 1) some_packet some_packet (λ off n h. omega arith)
      (record {
        bytes = λ i. omega arith;
        placed = refl;
        nonempty = omega arith;
        room = omega arith;
      })
      (record { enabled = refl; keyed = refl }) (record { enabled = refl; keyed = refl }) refl

-- ===== src/Net/Message.antt =====
-- The class NetworkMessage of source/networkmessage.h: its state, and the operations that read and
-- write values at the position m_ReadPos of the buffer.
use evolution078ots.Prelude.{
  ℕ, zero, suc, ◌+◌, ◌-◌, ◌*◌, ◌/◌, ◌%◌, Bool, true, false, not, ◌||◌, Option, none, some, List, [],
  ◌∷◌, ◌++◌, ltb, leb, ◌==◌, if◌then◌else◌, length, get_or,
}
use evolution078ots.Prelude.Int.{ℤ, pos, wrap}
use evolution078ots.Map.Position.{Position}
use evolution078ots.Net.Memory.{
  Memory, store8, load16, store16, load32, store32, store_bytes, load_bytes,
}
use evolution078ots.Net.Xtea.{Key}
pub mod Bounds
pub mod Fields
pub mod RoundTrip
pub mod Decryption

-- NETWORKMESSAGE_MAXSIZE (source/const79.h).
abbrev pub max_size : ℕ
max_size = 16768

-- `decrypt` of the RSA object: the 128 bytes that it writes back, or a failure.
abbrev pub Rsa : Type 0
Rsa = List ℕ → Option (List ℕ)

pub record NetworkMessage : Type 0 where
  pub msg_size : ℕ
  pub read_pos : ℕ
  pub msg_buf : Memory
  pub encryption_enabled : Bool
  pub keyset : Bool
  pub key : Key
  pub rsa : Option Rsa

unfoldable pub reset : NetworkMessage → NetworkMessage
reset m = record m { msg_size = 0; read_pos = 4 }

-- The constructor. The arrays have whatever stands in the memory that is allocated.
unfoldable pub new_message : Memory → Key → NetworkMessage
new_message garbage key = record {
  msg_size = 0;
  read_pos = 4;
  msg_buf = garbage;
  encryption_enabled = false;
  keyset = false;
  key = key;
  rsa = none;
}

unfoldable pub set_encryption_state : NetworkMessage → Bool → NetworkMessage
set_encryption_state m state = record m { encryption_enabled = state }

unfoldable pub set_encryption_key : NetworkMessage → Key → NetworkMessage
set_encryption_key m key = record m { key = key; keyset = true }

-- Readers return the value and the message with its position moved.
unfoldable pub get_byte : NetworkMessage → ℕ × NetworkMessage
get_byte m = (m.msg_buf m.read_pos, record m { read_pos = m.read_pos + 1 })

unfoldable pub get_u16 : NetworkMessage → ℕ × NetworkMessage
get_u16 m = (load16 m.msg_buf m.read_pos, record m { read_pos = m.read_pos + 2 })

unfoldable pub get_u32 : NetworkMessage → ℕ × NetworkMessage
get_u32 m = (load32 m.msg_buf m.read_pos, record m { read_pos = m.read_pos + 4 })

-- `stringlen >= (16384 - m_ReadPos)` compares ints: past 16384 the right side is negative and the
-- test holds, as it does with the difference cut off at 0.
take_chars : NetworkMessage → ℕ → List ℕ × NetworkMessage
take_chars m stringlen =
    if leb (16384 - m.read_pos) stringlen
    then ([], m)
    else (load_bytes m.msg_buf m.read_pos stringlen, record m { read_pos = m.read_pos + stringlen })

unfoldable pub get_string : NetworkMessage → List ℕ × NetworkMessage
unfolding take_chars get_u16
get_string m = let (stringlen, m') = get_u16 m in take_chars m' stringlen

unfoldable pub get_raw : NetworkMessage → List ℕ × NetworkMessage
unfolding take_chars
get_raw m = take_chars m ((m.msg_size + 65536 - m.read_pos % 65536) % 65536)

unfoldable pub get_position : NetworkMessage → Position × NetworkMessage
unfolding get_u16 get_byte
get_position m =
    let (x, m1) = get_u16 m in
    let (y, m2) = get_u16 m1 in
    let (z, m3) = get_byte m2 in (record { x = pos x; y = pos y; z = pos z }, m3)

unfoldable pub skip_bytes : NetworkMessage → ℕ → NetworkMessage
skip_bytes m count = record m { read_pos = m.read_pos + count }

unfoldable pub can_add : NetworkMessage → ℕ → Bool
can_add m size = ltb (size + m.read_pos) (max_size - 16)

-- The position and the size after `n` bytes at the position have become `buf`.
advance : NetworkMessage → Memory → ℕ → NetworkMessage
advance m buf n = record m { msg_buf = buf; read_pos = m.read_pos + n; msg_size = m.msg_size + n }

unfoldable pub add_byte : NetworkMessage → ℕ → NetworkMessage
unfolding can_add advance
add_byte m value = if not (can_add m 1) then m else advance m (store8 m.msg_buf m.read_pos value) 1

unfoldable pub add_u16 : NetworkMessage → ℕ → NetworkMessage
unfolding can_add advance
add_u16 m value = if not (can_add m 2) then m else advance m (store16 m.msg_buf m.read_pos value) 2

unfoldable pub add_u32 : NetworkMessage → ℕ → NetworkMessage
unfolding can_add advance
add_u32 m value = if not (can_add m 4) then m else advance m (store32 m.msg_buf m.read_pos value) 4

-- What `strlen` and `strcpy` see of a text: the bytes before the first NUL.
unfoldable pub c_string : List ℕ → List ℕ
c_string [] = []
c_string (c ∷ cs) = let rest = c_string cs in if c == 0 then [] else c ∷ rest

-- `strcpy` writes the final NUL as well.
unfoldable pub add_string : NetworkMessage → List ℕ → NetworkMessage
unfolding can_add advance add_u16
add_string m value =
    let s = c_string value in
    let stringlen = length s in
    let m' = add_u16 m stringlen in
    if not (can_add m (stringlen + 2)) || ltb 8192 stringlen
    then m
    else advance m' (store_bytes m'.msg_buf m'.read_pos (s ++ 0 ∷ [])) stringlen

unfoldable pub add_bytes : NetworkMessage → List ℕ → NetworkMessage
unfolding can_add advance
add_bytes m bytes =
    if not (can_add m (length bytes)) || ltb 8192 (length bytes)
    then m
    else advance m (store_bytes m.msg_buf m.read_pos bytes) (length bytes)

unfoldable pub add_position : NetworkMessage → Position → NetworkMessage
unfolding add_u16 add_byte
add_position m p = add_byte (add_u16 (add_u16 m (wrap 65536 p.x)) (wrap 65536 p.y)) (wrap 256 p.z)

-- What AddItem reads of an entry of the table Item::items.
pub record ItemType : Type 0 where
  pub client_id : ℕ
  pub stackable : Bool
  pub is_rune : Bool
  pub is_splash : Bool
  pub is_fluid_container : Bool

-- fluidMap of source/const79.h.
abbrev pub fluid_map : List ℕ
fluid_map = 0x00 ∷ 0x01 ∷ 0x05 ∷ 0x03 ∷ 0x06 ∷ 0x08 ∷ 0x09 ∷ 0x02 ∷ []

unfoldable pub add_item : (ℕ → ItemType) → NetworkMessage → ℕ → ℕ → NetworkMessage
unfolding add_u16 add_byte
add_item items m id count =
    let it = items id in
    let m' = add_u16 m it.client_id in
    if it.stackable || it.is_rune
    then add_byte m' count
    else if it.is_splash || it.is_fluid_container
    then add_byte m' (get_or fluid_map (count % 8) 0)
    else m'

unfoldable pub add_item_id : (ℕ → ItemType) → NetworkMessage → ℕ → NetworkMessage
unfolding add_u16
add_item_id items m item_id = add_u16 m (items item_id).client_id

unfoldable pub join_messages : NetworkMessage → NetworkMessage → NetworkMessage
unfolding can_add advance
join_messages m add =
    if not (can_add m add.msg_size)
    then m
    else advance m (store_bytes m.msg_buf m.read_pos (load_bytes add.msg_buf 4 add.msg_size))
        add.msg_size

-- The first byte of the plain text must be 0.
unfoldable pub check_first : NetworkMessage → Bool × NetworkMessage
unfolding get_byte
check_first m = let (first, m') = get_byte m in if not (first == 0) then (false, m') else (true, m')

unfoldable pub decrypt_with : NetworkMessage → Option Rsa → Bool × NetworkMessage
unfolding check_first
decrypt_with m none = (false, m)
decrypt_with m (some rsa) = elim (rsa (load_bytes m.msg_buf m.read_pos 128)) [
  | none ↦ (false, m)
  | some plain ↦ check_first (record m { msg_buf = store_bytes m.msg_buf m.read_pos plain })
]

unfoldable pub rsa_decrypt : NetworkMessage → Bool × NetworkMessage
unfolding decrypt_with
rsa_decrypt m = if not (m.msg_size == 128 + m.read_pos) then (false, m) else decrypt_with m m.rsa

-- ===== src/Net/Message/Bounds.antt =====
-- No operation that adds to a packet writes outside the free part of its buffer.
use evolution078ots.Prelude.{
  ltb, ℕ, ◌+◌, ◌-◌, ◌≤◌, ◌<◌, ◌≡◌, refl, ◌⊎◌, List, [], ◌∷◌, ◌++◌, arith, length, length-append,
  inl, inr, Bool-cases, not, ◌||◌, Bool, false,
}
use evolution078ots.Map.Position.{Position}
use evolution078ots.Net.Memory.{
  store8, store16, store32, store_bytes, store_bytes_outside, load_bytes, length-load_bytes,
}
use evolution078ots.Net.Message.{
  NetworkMessage, ItemType, max_size, can_add, advance, c_string, add_byte, add_u16, add_u32,
  add_string, add_bytes, add_position, add_item, add_item_id, join_messages,
}

-- One call that adds to a packet.
pub data AddCall : Type 0 where
  byte u16 u32 : ℕ → AddCall
  string bytes : List ℕ → AddCall
  position : Position → AddCall
  item : ℕ → ℕ → AddCall
  item_id : ℕ → AddCall
  join : NetworkMessage → AddCall

pub add_call : (ℕ → ItemType) → NetworkMessage → AddCall → NetworkMessage
add_call items m (byte v) = add_byte m v
add_call items m (u16 v) = add_u16 m v
add_call items m (u32 v) = add_u32 m v
add_call items m (string s) = add_string m s
add_call items m (bytes s) = add_bytes m s
add_call items m (position p) = add_position m p
add_call items m (item id count) = add_item items m id count
add_call items m (item_id id) = add_item_id items m id
add_call items m (join other) = join_messages m other

pub add_calls : (ℕ → ItemType) → NetworkMessage → List AddCall → NetworkMessage
add_calls items m [] = m
add_calls items m (c ∷ cs) = add_calls items (add_call items m c) cs

-- `m'` is `m` with more bytes between its position and the limit of `canAdd`.
pub record Extends (m m' : NetworkMessage) : Type 0 where
  pub forward : m.read_pos ≤ m'.read_pos
  pub within : m.read_pos < max_size - 16 → m'.read_pos < max_size - 16
  pub counted : m'.msg_size + m.read_pos ≡ m.msg_size + m'.read_pos
  pub untouched : (i : ℕ) → (i < m.read_pos) ⊎ (max_size - 16 ≤ i) → m'.msg_buf i ≡ m.msg_buf i

Extends-refl : (m : NetworkMessage) → Extends m m
Extends-refl m = record {
  forward = omega arith;
  within = λ h. h;
  counted = refl;
  untouched = λ i h. refl;
}

pub Extends-trans : (a b c : NetworkMessage) → Extends a b → Extends b c → Extends a c
Extends-trans a b c p q = record {
  forward = omega arith;
  within = λ h. q.within (p.within h);
  counted = omega arith;
  untouched = λ i h. ground (arith, p.untouched i, q.untouched i);
}

pub add_byte-Extends : (m : NetworkMessage) (v : ℕ) → Extends m (add_byte m v)
unfolding add_byte store8
add_byte-Extends m v = record {
  forward = ground arith;
  within = ground arith;
  counted = ground arith;
  untouched = λ i h. ground arith;
}

pub add_u16-Extends : (m : NetworkMessage) (v : ℕ) → Extends m (add_u16 m v)
unfolding add_u16 store16
add_u16-Extends m v = record {
  forward = ground arith;
  within = ground arith;
  counted = ground arith;
  untouched = λ i h. ground arith;
}

pub add_u32-Extends : (m : NetworkMessage) (v : ℕ) → Extends m (add_u32 m v)
unfolding add_u32 store32
add_u32-Extends m v = record {
  forward = ground arith;
  within = ground arith;
  counted = ground arith;
  untouched = λ i h. ground arith;
}

-- A block of bytes copied to the position, `n` of which count.
advance-Extends :
    (m : NetworkMessage) (bs : List ℕ) (n : ℕ)
    → n ≤ length bs
    → m.read_pos + length bs ≤ max_size - 16
    → m.read_pos + n < max_size - 16
    → Extends m (advance m (store_bytes m.msg_buf m.read_pos bs) n)
unfolding advance
advance-Extends m bs n h room below = record {
  forward = omega arith;
  within = omega arith;
  counted = omega arith;
  untouched = λ i k. store_bytes_outside m.msg_buf m.read_pos i bs (ground arith);
}

-- What the guards of the copying operations leave open.
guard_room :
    (m : NetworkMessage) (n : ℕ)
    → (not (can_add m n) || ltb 8192 n) ≡ false
    → m.read_pos + n < max_size - 16
unfolding can_add
guard_room m n e = ground arith

add_bytes-Extends : (m : NetworkMessage) (bs : List ℕ) → Extends m (add_bytes m bs)
unfolding add_bytes
add_bytes-Extends m bs = elim (Bool-cases (not (can_add m (length bs)) || ltb 8192 (length bs))) [
  | inl e ↦ rw e (Extends-refl m)
  | inr e ↦
      let room = guard_room m (length bs) e in
      rw e (advance-Extends m bs (length bs) (omega arith) (omega arith) (omega arith))
]

read_pos-add_u16 :
    (m : NetworkMessage) (v : ℕ)
    → m.read_pos + 2 < max_size - 16
    → (add_u16 m v).read_pos ≡ m.read_pos + 2
unfolding add_u16
read_pos-add_u16 m v h = ground arith

-- The text of AddString with its NUL, behind its length.
text-Extends :
    (m : NetworkMessage) (s : List ℕ)
    → m.read_pos + (length s + 2) < max_size - 16
    → let m' = add_u16 m (length s) in
      Extends m (advance m' (store_bytes m'.msg_buf m'.read_pos (s ++ 0 ∷ [])) (length s))
text-Extends m s h =
    let m' = add_u16 m (length s) in
    let two = read_pos-add_u16 m (length s) (omega arith) in
    let more = length-append s (0 ∷ []) in
    Extends-trans m m' _ (add_u16-Extends m (length s))
      (advance-Extends m' (s ++ 0 ∷ []) (length s) (omega arith) (omega arith) (omega arith))

guard_room_string :
    (m : NetworkMessage) (n : ℕ)
    → (not (can_add m (n + 2)) || ltb 8192 n) ≡ false
    → m.read_pos + (n + 2) < max_size - 16
unfolding can_add
guard_room_string m n e = ground arith

pub add_string-Extends : (m : NetworkMessage) (value : List ℕ) → Extends m (add_string m value)
unfolding add_string
add_string-Extends m value = elim (Bool-cases refused) [
  | inl e ↦ rw e (Extends-refl m)
  | inr e ↦ rw e (text-Extends m (c_string value) (guard_room_string m (length (c_string value)) e))
]
  where
    refused : Bool
    refused = not (can_add m (length (c_string value) + 2)) || ltb 8192 (length (c_string value))

join_messages-Extends : (m other : NetworkMessage) → Extends m (join_messages m other)
unfolding join_messages
join_messages-Extends m other = elim (Bool-cases (not (can_add m other.msg_size))) [
  | inl e ↦ rw e (Extends-refl m)
  | inr e ↦
      let room = room_of e in
      let len = length-load_bytes other.msg_buf 4 other.msg_size in
      rw e (
        advance-Extends m (load_bytes other.msg_buf 4 other.msg_size) other.msg_size (omega arith)
          (omega arith) (omega arith))
]
  where
    room_of : not (can_add m other.msg_size) ≡ false → m.read_pos + other.msg_size < max_size - 16
    room_of e = ground arith

pub add_position-Extends : (m : NetworkMessage) (p : Position) → Extends m (add_position m p)
unfolding add_position
add_position-Extends m p =
    Extends-trans m _ _ (add_u16-Extends m _)
      (Extends-trans _ _ _ (add_u16-Extends _ _) (add_byte-Extends _ _))

add_item-Extends :
    (items : ℕ → ItemType) (m : NetworkMessage) (id count : ℕ)
    → Extends m (add_item items m id count)
unfolding add_item
add_item-Extends items m id count = elim (Bool-cases ((items id).stackable || (items id).is_rune)) [
  | inl e ↦ rw e (Extends-trans m _ _ (add_u16-Extends m _) (add_byte-Extends _ _))
  | inr e ↦ rw e (elim (Bool-cases ((items id).is_splash || (items id).is_fluid_container)) [
    | inl f ↦ rw f (Extends-trans m _ _ (add_u16-Extends m _) (add_byte-Extends _ _))
    | inr f ↦ rw f (add_u16-Extends m _)
  ])
]

add_call-Extends :
    (items : ℕ → ItemType) (m : NetworkMessage) (c : AddCall) → Extends m (add_call items m c)
unfolding add_call
add_call-Extends items m (byte v) = add_byte-Extends m v
add_call-Extends items m (u16 v) = add_u16-Extends m v
add_call-Extends items m (u32 v) = add_u32-Extends m v
add_call-Extends items m (string s) = add_string-Extends m s
add_call-Extends items m (bytes s) = add_bytes-Extends m s
add_call-Extends items m (position p) = add_position-Extends m p
add_call-Extends items m (item id count) = add_item-Extends items m id count
add_call-Extends items m (item_id id) = unfold add_item_id in add_u16-Extends m _
add_call-Extends items m (join other) = join_messages-Extends m other

-- However a packet is filled, by any sequence of the Add calls with any arguments: the calls write
-- no byte below the position where they start and none from MAXSIZE - 16 on, the position stays
-- below that limit if it was below it, and m_MsgSize grows by as much as the position.
pub add_calls-Extends :
    (items : ℕ → ItemType) (m : NetworkMessage) (cs : List AddCall)
    → Extends m (add_calls items m cs)
unfolding add_calls
add_calls-Extends items m [] = Extends-refl m
add_calls-Extends items m (c ∷ cs) =
    Extends-trans m _ _ (add_call-Extends items m c)
      (add_calls-Extends items (add_call items m c) cs)

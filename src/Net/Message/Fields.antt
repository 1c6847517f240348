-- ===== src/Net/Message/Fields.antt =====
-- A packet as the sequence of typed fields that the protocol puts into it and takes from it, over
-- the Add and Get operations of source/networkmessage.cpp.
use evolution078ots.Prelude.{ℕ, ◌+◌, ◌≤◌, ◌<◌, ◌≡◌, List, [], ◌∷◌, length, All}
use evolution078ots.Prelude.Int.{pos, wrap}
use evolution078ots.Map.Position.{Position}
use evolution078ots.Net.Message.{
  NetworkMessage, add_byte, add_u16, add_u32, add_string, add_position, get_byte, get_u16, get_u32,
  get_string, get_position,
}

pub data Kind : Type 0 where
  a_byte a_u16 a_u32 a_string a_position : Kind

pub data Field : Type 0 where
  byte u16 u32 : ℕ → Field
  string : List ℕ → Field
  position : Position → Field

abbrev pub kind : Field → Kind
kind (byte _) = a_byte
kind (u16 _) = a_u16
kind (u32 _) = a_u32
kind (string _) = a_string
kind (position _) = a_position

-- The bytes that a field takes.
abbrev pub size : Field → ℕ
size (byte _) = 1
size (u16 _) = 2
size (u32 _) = 4
size (string s) = length s + 2
size (position _) = 5

abbrev pub total : List Field → ℕ
total [] = 0
total (f ∷ fs) = size f + total fs

-- The values that a field can carry: unsigned integers of its width, texts without NUL that
-- AddString takes, and points whose coordinates fit.
abbrev pub Fits : Field → Type 0
Fits (byte v) = v < 256
Fits (u16 v) = v < 65536
Fits (u32 v) = v < 4294967296
Fits (string s) = All (λ c. (0 < c) × (c < 256)) s × (length s ≤ 8192)
Fits (position p) =
    (pos (wrap 65536 p.x) ≡ p.x) × (pos (wrap 65536 p.y) ≡ p.y) × (pos (wrap 256 p.z) ≡ p.z)

unfoldable pub put : NetworkMessage → Field → NetworkMessage
put m (byte v) = add_byte m v
put m (u16 v) = add_u16 m v
put m (u32 v) = add_u32 m v
put m (string s) = add_string m s
put m (position p) = add_position m p

unfoldable pub put_fields : NetworkMessage → List Field → NetworkMessage
put_fields m [] = m
put_fields m (f ∷ fs) = put_fields (put m f) fs

unfoldable pub get : Kind → NetworkMessage → Field × NetworkMessage
get a_byte m = let (v, m') = get_byte m in (byte v, m')
get a_u16 m = let (v, m') = get_u16 m in (u16 v, m')
get a_u32 m = let (v, m') = get_u32 m in (u32 v, m')
get a_string m = let (s, m') = get_string m in (string s, m')
get a_position m = let (p, m') = get_position m in (position p, m')

unfoldable pub get_fields : List Kind → NetworkMessage → List Field
get_fields [] m = []
get_fields (k ∷ ks) m = let (f, m') = get k m in f ∷ get_fields ks m'

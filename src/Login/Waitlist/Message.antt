-- ===== src/Login/Waitlist/Message.antt =====
-- Waitlist::createMessage of source/waitlist.cpp: the packet that tells a client its place.
use evolution078ots.Prelude.{
  ℕ, zero, suc, ◌+◌, ◌/◌, ◌%◌, List, [], ◌∷◌, ◌++◌, Option, some, none, ltb, if◌then◌else◌,
}
use Prim.Native.Char.{code}
use Prim.Native.String.{String}
use evolution078ots.Net.Message.{NetworkMessage, add_byte, add_string}
use evolution078ots.Login.Waitlist.{Wait, get_client_slot, get_time}

-- The bytes of an ASCII text.
abbrev pub codes : String → List ℕ
codes String.[] = []
codes (String.◌∷◌ c s) = code c ∷ codes s

-- The decimal digits of a number below 10 ^ fuel, in front of `acc`.
unfoldable pub digits_of : ℕ → ℕ → List ℕ → List ℕ
digits_of zero n acc = acc
digits_of (suc fuel) n acc =
    let acc' = (b'0' + n % 10) ∷ acc in
    let rest = digits_of fuel (n / 10) acc' in if ltb n 10 then acc' else rest

-- What the stream prints for an int; `none` is -1. An int has ten digits at most.
unfoldable pub decimal : Option ℕ → List ℕ
unfolding digits_of
decimal none = codes "-1"
decimal (some n) = digits_of 10 n []

-- getTime, of the slot that was found or of -1.
unfoldable pub create_message : ℕ → ℕ → ℕ → NetworkMessage → List Wait → NetworkMessage × List Wait
create_message now acc ip msg ws =
    let (slot, ws') = get_client_slot now acc ip ws in
    let text =
      codes "Too many players online.\n"
      ++ (codes "You are at place " ++ (decimal slot ++ codes " on the waiting list.")) in
    (add_byte (add_string (add_byte msg 0x16) text) (get_time 0), ws')

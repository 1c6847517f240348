-- ===== src/FileLoader/PropStream.antt =====
-- The classes PropStream and PropWriteStream of source/fileloader.h: little-endian values in a buffer.
use evolution078ots.Prelude.{
  ℕ, zero, suc, ◌+◌, ◌-◌, ◌*◌, ◌/◌, ◌%◌, ◌^◌, Option, none, some, List, [], ◌∷◌, ◌++◌, ltb, ◌==◌,
  if◌then◌else◌, length, take, drop,
}
pub mod Stream

-- The little-endian bytes of a value that is `n` bytes wide, and back.
unfoldable pub to_bytes : ℕ → ℕ → List ℕ
to_bytes zero v = []
to_bytes (suc n) v = v % 256 ∷ to_bytes n (v / 256)

unfoldable pub of_bytes : List ℕ → ℕ
of_bytes [] = 0
of_bytes (b ∷ bs) = b + 256 * of_bytes bs

-- A stream is the bytes from `p` up to `end`. A getter returns the value and the stream behind it,
-- or fails; then GET_STRING may have passed the length, and the others leave the stream as it is.
-- GET_VALUE of a type of `n` bytes:
unfoldable pub get_value : ℕ → List ℕ → Option (ℕ × List ℕ)
get_value n p = if ltb (length p) n then none else some (of_bytes (take n p), drop n p)

unfoldable pub get_ulong : List ℕ → Option (ℕ × List ℕ)
unfolding get_value
get_ulong p = get_value 4 p

unfoldable pub get_ushort : List ℕ → Option (ℕ × List ℕ)
unfolding get_value
get_ushort p = get_value 2 p

unfoldable pub get_uchar : List ℕ → Option (ℕ × List ℕ)
unfolding get_value
get_uchar p = get_value 1 p

-- `ret = str` copies the text up to its first NUL.
unfoldable pub c_str : List ℕ → List ℕ
c_str [] = []
c_str (c ∷ cs) = let rest = c_str cs in if c == 0 then [] else c ∷ rest

unfoldable pub get_nstring : ℕ → List ℕ → Option (List ℕ × List ℕ)
unfolding c_str
get_nstring str_len p =
    if ltb (length p) str_len then none else some (c_str (take str_len p), drop str_len p)

unfoldable pub get_string : List ℕ → Option (List ℕ × List ℕ)
unfolding get_ushort get_nstring
get_string p = elim (get_ushort p) [ none ↦ none | some (str_len, p') ↦ get_nstring str_len p' ]

unfoldable pub skip_n : ℕ → List ℕ → Option (List ℕ)
skip_n n p = if ltb (length p) n then none else some (drop n p)

-- The stream that is written: the bytes so far (`size` of them) and the size of the allocation.
pub record PropWriteStream : Type 0 where
  pub buffer : List ℕ
  pub buffer_size : ℕ

unfoldable pub empty_stream : PropWriteStream
empty_stream = record { buffer = []; buffer_size = 32 }

-- (n + 0x1F) & 0xFFFFFFE0
unfoldable pub round_up : ℕ → ℕ
round_up n = (n + 31) / 32 * 32

-- The allocation before `n` bytes are copied behind the others. The test and the sum are those of
-- uint32_t, which do not wrap while the stream is shorter than 2 ^ 32.
unfoldable pub reserve : PropWriteStream → ℕ → ℕ
unfolding round_up
reserve s n =
    if ltb (s.buffer_size - length s.buffer) n then s.buffer_size + round_up n else s.buffer_size

unfoldable pub append_bytes : PropWriteStream → List ℕ → PropWriteStream
unfolding reserve
append_bytes s bytes = record { buffer = s.buffer ++ bytes; buffer_size = reserve s (length bytes) }

-- ADD_VALUE of a type of `n` bytes.
unfoldable pub add_value : ℕ → PropWriteStream → ℕ → PropWriteStream
unfolding append_bytes to_bytes
add_value n s v = append_bytes s (to_bytes n v)

unfoldable pub add_ulong : PropWriteStream → ℕ → PropWriteStream
unfolding add_value
add_ulong s v = add_value 4 s v

unfoldable pub add_ushort : PropWriteStream → ℕ → PropWriteStream
unfolding add_value
add_ushort s v = add_value 2 s v

unfoldable pub add_uchar : PropWriteStream → ℕ → PropWriteStream
unfolding add_value
add_uchar s v = add_value 1 s v

-- The length is cut to an unsigned short, and so is the text.
unfoldable pub add_string : PropWriteStream → List ℕ → PropWriteStream
unfolding add_ushort append_bytes
add_string s add =
    let str_len = length add % 65536 in append_bytes (add_ushort s str_len) (take str_len add)

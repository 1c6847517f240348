-- ===== src/FileLoader/PropStream/Stream.antt =====
-- A stream of properties is read as it was written, and its copies stay in the allocation.
use evolution078ots.Prelude.{
  ℕ, zero, suc, ◌/◌, ◌%◌, subst, ◌≤◌, ◌<◌, ◌≡◌, refl, ap, sym, ◌∙◌, Option, none, some, List, [],
  ◌∷◌, ◌++◌, arith, length, take, length-append, take-append, drop-append, All, map,
}
use mathlib.Core.List.{append_assoc, append-nil}
use evolution078ots.FileLoader.PropStream.{
  to_bytes, of_bytes, get_value, get_ulong, get_ushort, get_uchar, get_nstring, get_string, c_str,
  PropWriteStream, empty_stream, append_bytes, add_ulong, add_ushort, add_uchar, add_string,
}

pub data Kind : Type 0 where
  a_uchar a_ushort a_ulong a_string : Kind

pub data Property : Type 0 where
  uchar ushort ulong : ℕ → Property
  string : List ℕ → Property

abbrev pub kind : Property → Kind
kind (uchar _) = a_uchar
kind (ushort _) = a_ushort
kind (ulong _) = a_ulong
kind (string _) = a_string

-- The values of each type; texts without NUL that an unsigned short can count.
abbrev pub Fits : Property → Type 0
Fits (uchar v) = v < 256
Fits (ushort v) = v < 65536
Fits (ulong v) = v < 4294967296
Fits (string s) = All (λ c. 0 < c) s × (length s < 65536)

unfoldable pub add : PropWriteStream → Property → PropWriteStream
add s (uchar v) = add_uchar s v
add s (ushort v) = add_ushort s v
add s (ulong v) = add_ulong s v
add s (string t) = add_string s t

unfoldable pub add_all : PropWriteStream → List Property → PropWriteStream
add_all s [] = s
add_all s (p ∷ ps) = add_all (add s p) ps

abbrev pub tagged {ℓ} :
    {A : Type ℓ} → (A → Property) → Option (A × List ℕ) → Option (Property × List ℕ)
tagged f none = none
tagged f (some (a, p)) = some (f a, p)

unfoldable pub get : Kind → List ℕ → Option (Property × List ℕ)
get a_uchar p = tagged uchar (get_uchar p)
get a_ushort p = tagged ushort (get_ushort p)
get a_ulong p = tagged ulong (get_ulong p)
get a_string p = tagged string (get_string p)

-- The properties of these kinds, and what is left of the stream.
unfoldable pub get_all : List Kind → List ℕ → Option (List Property × List ℕ)
get_all [] p = some ([], p)
get_all (k ∷ ks) p = elim (get k p) [
  | none ↦ none
  | some (v, p') ↦ elim (get_all ks p') [ none ↦ none | some (vs, p'') ↦ some (v ∷ vs, p'') ]
]

-- The bytes of a property.
unfoldable pub bytes_of : Property → List ℕ
bytes_of (uchar v) = to_bytes 1 v
bytes_of (ushort v) = to_bytes 2 v
bytes_of (ulong v) = to_bytes 4 v
bytes_of (string s) = to_bytes 2 (length s % 65536) ++ take (length s % 65536) s

pub length-to_bytes : (n v : ℕ) → length (to_bytes n v) ≡ n
unfolding to_bytes
length-to_bytes zero v = refl
length-to_bytes (suc n) v = ap suc (length-to_bytes n (v / 256))

pub get_value-append :
    (bs rest : List ℕ) → get_value (length bs) (bs ++ rest) ≡ some (of_bytes bs, rest)
unfolding get_value
get_value-append bs rest =
    ground (arith, take-append bs rest, drop-append bs rest, length-append bs rest)

pub get_value-to_bytes :
    (n v : ℕ) (rest : List ℕ)
    → of_bytes (to_bytes n v) ≡ v
    → get_value n (to_bytes n v ++ rest) ≡ some (v, rest)
get_value-to_bytes n v rest e =
    subst (λ k. get_value k (to_bytes n v ++ rest) ≡ some (v, rest)) (length-to_bytes n v)
      (get_value-append (to_bytes n v) rest ∙ ap (λ x. some (x, rest)) e)

take_all : (xs : List ℕ) → take (length xs) xs ≡ xs
take_all [] = refl
take_all (x ∷ xs) = ap (◌∷◌ x) (take_all xs)

c_str_id : (s : List ℕ) → All (λ c. 0 < c) s → c_str s ≡ s
unfolding c_str
c_str_id [] h = refl
c_str_id (c ∷ cs) h = ground (arith, c_str_id cs h.1)

get_nstring-append :
    (s rest : List ℕ) → All (λ c. 0 < c) s → get_nstring (length s) (s ++ rest) ≡ some (s, rest)
unfolding get_nstring
get_nstring-append s rest h =
    ground (arith, take-append s rest, drop-append s rest, length-append s rest, c_str_id s h)

pub value1 : (v : ℕ) → v < 256 → of_bytes (to_bytes 1 v) ≡ v
unfolding of_bytes to_bytes
value1 v h = omega arith

value2 : (v : ℕ) → v < 65536 → of_bytes (to_bytes 2 v) ≡ v
unfolding of_bytes to_bytes
value2 v h = omega arith

pub value4 : (v : ℕ) → v < 4294967296 → of_bytes (to_bytes 4 v) ≡ v
unfolding of_bytes to_bytes
value4 v h = omega arith

get_string-append :
    (s rest : List ℕ)
    → All (λ c. 0 < c) s
    → length s < 65536
    → get_string (to_bytes 2 (length s) ++ (s ++ rest)) ≡ some (s, rest)
unfolding get_string
get_string-append s rest h len =
    rw (get_value-to_bytes 2 (length s) (s ++ rest) (value2 (length s) len), get_string)
      (get_nstring-append s rest h)

-- Any value of the kind is read from its bytes, and the rest is left.
get-bytes_of :
    (p : Property) (rest : List ℕ) → Fits p → get (kind p) (bytes_of p ++ rest) ≡ some (p, rest)
unfolding get bytes_of get_uchar get_ushort get_ulong
get-bytes_of (uchar v) rest h = ap (tagged uchar) (get_value-to_bytes 1 v rest (value1 v h))
get-bytes_of (ushort v) rest h = ap (tagged ushort) (get_value-to_bytes 2 v rest (value2 v h))
get-bytes_of (ulong v) rest h = ap (tagged ulong) (get_value-to_bytes 4 v rest (value4 v h))
get-bytes_of (string s) rest h =
    ap (λ b. tagged string (get_string (b ++ rest))) whole
    ∙ ap (λ b. tagged string (get_string b)) (append_assoc (to_bytes 2 (length s)) s rest)
    ∙ ap (tagged string) (get_string-append s rest h.0 h.1)
  where
    whole : bytes_of (string s) ≡ to_bytes 2 (length s) ++ s
    whole =
        let small : length s % 65536 ≡ length s = omega (arith, h.1) in
        rw small (ap (◌++◌ (to_bytes 2 (length s))) (take_all s))

-- The allocation holds the bytes.
abbrev pub IsAllocated : PropWriteStream → Type 0
IsAllocated s = length s.buffer ≤ s.buffer_size

append_bytes-IsAllocated :
    (s : PropWriteStream) (bs : List ℕ) → IsAllocated s → IsAllocated (append_bytes s bs)
unfolding append_bytes
append_bytes-IsAllocated s bs h = ground (arith, length-append s.buffer bs)

add-IsAllocated : (s : PropWriteStream) (p : Property) → IsAllocated s → IsAllocated (add s p)
unfolding add append_bytes add_uchar add_ushort add_ulong add_string
add-IsAllocated s (uchar v) h = append_bytes-IsAllocated s _ h
add-IsAllocated s (ushort v) h = append_bytes-IsAllocated s _ h
add-IsAllocated s (ulong v) h = append_bytes-IsAllocated s _ h
add-IsAllocated s (string t) h = append_bytes-IsAllocated _ _ (append_bytes-IsAllocated s _ h)

-- The bytes of a written property come behind the others.
buffer-add : (s : PropWriteStream) (p : Property) → (add s p).buffer ≡ s.buffer ++ bytes_of p
unfolding add bytes_of add_uchar add_ushort add_ulong add_string
buffer-add s (uchar v) = refl
buffer-add s (ushort v) = refl
buffer-add s (ulong v) = refl
buffer-add s (string t) = append_assoc s.buffer _ _

abbrev all_bytes : List Property → List ℕ
all_bytes [] = []
all_bytes (p ∷ ps) = bytes_of p ++ all_bytes ps

buffer-add_all :
    (s : PropWriteStream) (ps : List Property) → (add_all s ps).buffer ≡ s.buffer ++ all_bytes ps
unfolding add_all
buffer-add_all s [] = sym (append-nil s.buffer)
buffer-add_all s (p ∷ ps) =
    buffer-add_all (add s p) ps
    ∙ ap (λ b. b ++ all_bytes ps) (buffer-add s p)
    ∙ append_assoc s.buffer (bytes_of p) (all_bytes ps)

add_all-IsAllocated :
    (s : PropWriteStream) (ps : List Property) → IsAllocated s → IsAllocated (add_all s ps)
unfolding add_all
add_all-IsAllocated s [] h = h
add_all-IsAllocated s (p ∷ ps) h = add_all-IsAllocated (add s p) ps (add-IsAllocated s p h)

get_all-all_bytes :
    (ps : List Property) → All Fits ps → get_all (map kind ps) (all_bytes ps) ≡ some (ps, [])
unfolding get_all
get_all-all_bytes [] h = refl
get_all-all_bytes (p ∷ ps) h =
    rw (get-bytes_of p (all_bytes ps) h.0, get_all) (rw (get_all-all_bytes ps h.1, get_all))

-- Any sequence of properties in range that is put into an empty stream is read back as it was
-- written, and nothing is left; and the copies have stayed within the allocated buffer.
pub get_all-add_all :
    (ps : List Property)
    → All Fits ps
    → (get_all (map kind ps) (add_all empty_stream ps).buffer ≡ some (ps, []))
      × IsAllocated (add_all empty_stream ps)
unfolding empty_stream
get_all-add_all ps h = (
  ap (get_all (map kind ps)) (buffer-add_all empty_stream ps) ∙ get_all-all_bytes ps h,
  add_all-IsAllocated empty_stream ps (omega arith),
)

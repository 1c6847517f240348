-- ===== src/FileLoader/Writer/Room.antt =====
-- What the writing calls put into the file, with room for it and without.
use evolution078ots.Prelude.{
  ℕ, ◌+◌, ◌-◌, ◌≤◌, ◌<◌, ◌≡◌, refl, Bool, true, false, List, [], ◌∷◌, ◌++◌, arith, length,
  length-append, inl, inr, ap, ◌∙◌, sym, ◌⊎◌,
}
use native.Mathlib.Decide.{dec_le}
use mathlib.Core.List.{append_assoc, append-nil}
use evolution078ots.FileLoader.{error_none, error_couldnotwrite, node_start, node_end, escape_char}
use evolution078ots.FileLoader.Writer.{
  Output, write_char, write_data, start_node, end_node, set_props, escape, encode, Forest, nil,
  cons, write_forest,
}

-- The output after `bytes` more.
unfoldable pub extend : Output → List ℕ → Output
extend o bytes = record o { written = o.written ++ bytes; room = o.room - length bytes }

extend-append : (o : Output) (xs ys : List ℕ) → extend (extend o xs) ys ≡ extend o (xs ++ ys)
unfolding extend
extend-append o xs ys = ground (arith, append_assoc o.written xs ys, length-append xs ys)

extend-nil : (o : Output) → extend o [] ≡ o
unfolding extend
extend-nil o = ground (arith, append-nil o.written)

-- The bytes that one byte of data becomes.
abbrev chars : ℕ → Bool → List ℕ
chars c true = escape (c ∷ [])
chars c false = c ∷ []

write_char_room :
    (o : Output) (c : ℕ) (unescape : Bool)
    → length (chars c unescape) ≤ o.room
    → write_char o c unescape ≡ (true, extend o (chars c unescape))
unfolding write_char extend escape
write_char_room o c true h = ground (arith, append_assoc o.written (escape_char ∷ []) (c ∷ []))
write_char_room o c false h = ground arith

write_char_full :
    (o : Output) (c : ℕ) (unescape : Bool)
    → o.room < length (chars c unescape)
    → ((write_char o c unescape).0 ≡ false)
      × ((write_char o c unescape).1.last_error ≡ error_couldnotwrite)
unfolding write_char escape
write_char_full o c true h = ground arith
write_char_full o c false h = ground arith

escape_cons : (c : ℕ) (cs : List ℕ) → escape (c ∷ cs) ≡ escape (c ∷ []) ++ escape cs
unfolding escape
escape_cons c cs = ground arith

-- One byte and then the rest.
write_data_cons :
    (o o' : Output) (c : ℕ) (cs : List ℕ) (unescape : Bool)
    → write_char o c unescape ≡ (true, o')
    → write_data o (c ∷ cs) unescape ≡ write_data o' cs unescape
unfolding write_data
write_data_cons o o' c cs unescape e = rw (e, write_data)

write_data_stop :
    (o : Output) (c : ℕ) (cs : List ℕ) (unescape : Bool)
    → (write_char o c unescape).0 ≡ false
    → write_data o (c ∷ cs) unescape ≡ (false, (write_char o c unescape).1)
unfolding write_data
write_data_stop o c cs unescape e = rw (e, write_data)

pub write_data_room :
    (o : Output) (cs : List ℕ)
    → length (escape cs) ≤ o.room
    → write_data o cs true ≡ (true, extend o (escape cs))
write_data_room o [] h =
    unfold write_data escape in ap (λ (x : Output). (true, x)) (sym (extend-nil o))
write_data_room o (c ∷ cs) h =
    let len = ap length (escape_cons c cs) ∙ length-append (escape (c ∷ [])) (escape cs) in
    write_data_cons o (extend o (escape (c ∷ []))) c cs true
      (write_char_room o c true (omega (arith, len)))
    ∙ write_data_room (extend o (escape (c ∷ []))) cs (unfold extend in omega (arith, len))
    ∙ ap (λ (x : Output). (true, x))
        (extend-append o (escape (c ∷ [])) (escape cs) ∙ ap (extend o) (sym (escape_cons c cs)))

write_data_full :
    (o : Output) (cs : List ℕ)
    → o.room < length (escape cs)
    → ((write_data o cs true).0 ≡ false)
      × ((write_data o cs true).1.last_error ≡ error_couldnotwrite)
write_data_full o [] h = unfold escape in absurd (omega arith)
write_data_full o (c ∷ cs) h = elim (dec_le (length (escape (c ∷ []))) o.room) [
  | yes fits ↦
      rw (write_data_cons o (extend o (escape (c ∷ []))) c cs true (write_char_room o c true fits))
        (write_data_full (extend o (escape (c ∷ []))) cs
          (unfold extend in omega (arith, len, fits)))
  | no over ↦
      let full = write_char_full o c true (omega (arith, over)) in
      rw (write_data_stop o c cs true full.0) (refl, full.1)
]
  where
    len : length (escape (c ∷ cs)) ≡ length (escape (c ∷ [])) + length (escape cs)
    len = ap length (escape_cons c cs) ∙ length-append (escape (c ∷ [])) (escape cs)

-- setProps succeeds exactly when the disk takes the escaped bytes: it then returns ERROR_NONE and
-- has put them behind what was written, and otherwise it returns ERROR_COULDNOTWRITE.
pub set_props_lem :
    (o : Output) (bytes : List ℕ)
    → ((length (escape bytes) ≤ o.room)
        × (set_props o bytes ≡ (error_none, extend o (escape bytes))))
      ⊎ ((o.room < length (escape bytes)) × ((set_props o bytes).0 ≡ error_couldnotwrite))
unfolding set_props
set_props_lem o bytes = elim (dec_le (length (escape bytes)) o.room) [
  | yes fits ↦ inl (fits, rw (write_data_room o bytes fits))
  | no over ↦
      let full = write_data_full o bytes (omega (arith, over)) in
      inr (omega (arith, over), rw full.0 full.1)
]

raw_room :
    (o : Output) (c : ℕ) → 0 < o.room → write_data o (c ∷ []) false ≡ (true, extend o (c ∷ []))
unfolding write_data
raw_room o c h = rw (write_char_room o c false (omega arith), write_data)

start_node_room :
    (o : Output) (type : ℕ)
    → 1 + length (escape (type ∷ [])) ≤ o.room
    → start_node o type ≡ extend o (node_start ∷ escape (type ∷ []))
unfolding start_node
start_node_room o type h =
    ap (λ (r : Bool × Output). (write_data r.1 (type ∷ []) true).1)
      (raw_room o node_start (omega arith))
    ∙ ap (λ (r : Bool × Output). r.1)
        (write_data_room (extend o (node_start ∷ [])) (type ∷ []) (unfold extend in omega arith))
    ∙ extend-append o (node_start ∷ []) (escape (type ∷ []))

end_node_room : (o : Output) → 0 < o.room → end_node o ≡ extend o (node_end ∷ [])
unfolding end_node
end_node_room o h = ap (λ (r : Bool × Output). r.1) (raw_room o node_end h)

set_props_room :
    (o : Output) (bytes : List ℕ)
    → length (escape bytes) ≤ o.room
    → (set_props o bytes).1 ≡ extend o (escape bytes)
unfolding set_props
set_props_room o bytes h = rw (write_data_room o bytes h)

-- The bytes of a node before its children, and of the node with its children.
abbrev opening : ℕ → List ℕ → List ℕ
opening type props = (node_start ∷ escape (type ∷ [])) ++ escape props

encode_parts :
    (type : ℕ) (props : List ℕ) (children rest : Forest)
    → encode (cons type props children rest)
      ≡ ((opening type props ++ encode children) ++ node_end ∷ []) ++ encode rest
unfolding encode
encode_parts type props children rest = simp append_assoc

opening_room :
    (o : Output) (type : ℕ) (props : List ℕ)
    → length (opening type props) ≤ o.room
    → (set_props (start_node o type) props).1 ≡ extend o (opening type props)
opening_room o type props h =
    let len = length-append (node_start ∷ escape (type ∷ [])) (escape props) in
    rw
      (
        start_node_room o type (omega (arith, len)),
        set_props_room (extend o (node_start ∷ escape (type ∷ []))) props
            (unfold extend in omega (arith, len)),
      )
      (extend-append o (node_start ∷ escape (type ∷ [])) (escape props))

-- With room for it, the calls that write a forest put its encoding behind what was written.
pub write_forest_room :
    (o : Output) (f : Forest) → length (encode f) ≤ o.room → write_forest o f ≡ extend o (encode f)
unfolding write_forest
write_forest_room o nil h = unfold encode in sym (extend-nil o)
write_forest_room o (cons type props children rest) h =
    ap (λ o. write_forest (end_node (write_forest o children)) rest)
      (opening_room o type props (omega (arith, total)))
    ∙ ap (λ o. write_forest (end_node o) rest)
        (write_forest_room (extend o a) children (unfold extend in omega (arith, total))
          ∙ extend-append o a b)
    ∙ ap (λ o. write_forest o rest)
        (end_node_room (extend o (a ++ b)) (unfold extend in omega (arith, total, two))
          ∙ extend-append o (a ++ b) (node_end ∷ []))
    ∙ write_forest_room (extend o ((a ++ b) ++ node_end ∷ [])) rest
        (unfold extend in omega (arith, total, two, three))
    ∙ extend-append o ((a ++ b) ++ node_end ∷ []) (encode rest)
    ∙ ap (extend o) (sym (encode_parts type props children rest))
  where
    a : List ℕ
    a = opening type props

    b : List ℕ
    b = encode children

    two : length (a ++ b) ≡ length a + length b
    two = length-append a b

    three : length ((a ++ b) ++ node_end ∷ []) ≡ length a + length b + 1
    three = omega (arith, length-append (a ++ b) (node_end ∷ []), two)

    total :
        length (encode (cons type props children rest))
        ≡ length a + length b + 1 + length (encode rest)
    total =
        ap length (encode_parts type props children rest)
        ∙ omega (arith, length-append ((a ++ b) ++ node_end ∷ []) (encode rest), three)

-- ===== src/FileLoader/Props/Unescape.antt =====
-- Unescaping undoes escaping, and when the buffer is large enough.
use evolution078ots.Prelude.{
  ℕ, ◌+◌, ◌≡◌, refl, ap, List, [], ◌∷◌, ◌++◌, arith, length, take, drop, ◌==◌, leb, false,
  Bool-cases, inl, inr, take-append, ◌∙◌, if◌then◌else◌,
}
use evolution078ots.FileLoader.{LoaderError, escape_char, Node, node}
use evolution078ots.FileLoader.Writer.{escape, is_special}
use evolution078ots.FileLoader.Props.{props, overrun, unescape, get_props}

unescape_plain :
    (behind c : ℕ) (cs : List ℕ)
    → (c == escape_char) ≡ false
    → unescape behind (c ∷ cs) ≡ c ∷ unescape behind cs
unfolding unescape
unescape_plain behind c [] e = rw (e, unescape)
unescape_plain behind c (d ∷ cs) e = rw (e, unescape)

-- Whatever stands behind the properties in the buffer.
unescape-escape : (behind : ℕ) (bytes : List ℕ) → unescape behind (escape bytes) ≡ bytes
unfolding escape
unescape-escape behind [] = unfold unescape in refl
unescape-escape behind (c ∷ cs) = elim (Bool-cases (is_special c)) [
  | inl s ↦ rw (s, escape) (special c (unescape-escape behind cs))
  | inr s ↦
      rw (s, escape)
        (unescape_plain behind c (escape cs) (ground arith)
          ∙ ap (◌∷◌ c) (unescape-escape behind cs))
]
  where
    special :
        (c : ℕ)
        → unescape behind (escape cs) ≡ cs
        → unescape behind (escape_char ∷ c ∷ escape cs) ≡ c ∷ cs
    special c ih = unfold unescape in ap (◌∷◌ c) ih

-- For a node whose properties were written escaped at its place: while they are at most 1024 bytes
-- longer than the buffer, getProps returns them as they were before; if they are longer than that,
-- the one enlargement by 1024 bytes does not suffice and the read runs over the end of the buffer.
pub get_props-escape :
    (file : List ℕ) (buffer_size behind start type : ℕ) (next child : Node) (err : LoaderError)
    (bytes rest : List ℕ)
    → drop (start + 2) file ≡ escape bytes ++ rest
    → (get_props file buffer_size behind (node start (length (escape bytes)) type next child) err).0
      ≡ (if leb (length (escape bytes)) (buffer_size + 1024) then props bytes else overrun)
unfolding get_props
get_props-escape file buffer_size behind start type next child err bytes rest at = ground (
  arith,
  ap (take (length (escape bytes))) at ∙ take-append (escape bytes) rest,
  unescape-escape behind bytes,
)

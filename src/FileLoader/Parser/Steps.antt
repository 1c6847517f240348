-- ===== src/FileLoader/Parser/Steps.antt =====
-- One turn of the parser's inner loop, for each kind of byte.
use evolution078ots.Prelude.{
  ℕ, suc, ◌+◌, ◌-◌, ◌≡◌, Bool, true, false, some, List, [], ◌∷◌, ◌++◌, ◌==◌, arith, length, drop,
  Bool-cases, inl, inr, if◌then◌else◌, subst,
}
use evolution078ots.FileLoader.{LoaderError, node_start, node_end, escape_char, Node, null}
use evolution078ots.FileLoader.Writer.{escape, is_special}
use evolution078ots.FileLoader.Layout.{read_at, drop_next}
use evolution078ots.FileLoader.Parser.{parsed, read_byte, finish, parse_node, scan}

module _ (f : ℕ) (file : List ℕ) (start type : ℕ) (set : Bool) (props_size : ℕ) (child : Node)
    (pos : ℕ) (err : LoaderError) where
  scan_plain :
      (c : ℕ)
      → read_byte file pos ≡ some c
      → is_special c ≡ false
      → scan (suc f) file start type set props_size child pos err
        ≡ scan f file start type set props_size child (pos + 1) err
  unfolding scan
  scan_plain c e s =
      let no_start : (c == node_start) ≡ false = ground arith in
      let no_end : (c == node_end) ≡ false = ground arith in
      let no_escape : (c == escape_char) ≡ false = ground arith in
      rw (e, scan) (rw (no_start, scan) (rw (no_end, scan) (rw (no_escape, scan))))

  scan_escape :
      (c : ℕ)
      → read_byte file pos ≡ some escape_char
      → read_byte file (pos + 1) ≡ some c
      → scan (suc f) file start type set props_size child pos err
        ≡ scan f file start type set props_size child (pos + 2) err
  unfolding scan
  scan_escape c e e' = rw (e, scan) (rw (e', scan))

  pub scan_child :
      (child' : Node) (pos' : ℕ) (err' : LoaderError)
      → read_byte file pos ≡ some node_start
      → parse_node f file pos (pos + 1) err ≡ parsed child' pos' err'
      → scan (suc f) file start type set props_size child pos err
        ≡ scan f file start type true (pos - start - 2) child' pos' err'
  unfolding scan
  scan_child child' pos' err' e e' = rw (e, scan) (rw (e', scan))

  pub scan_end :
      read_byte file pos ≡ some node_end
      → scan (suc f) file start type set props_size child pos err
        ≡ finish file start
            (if set then props_size else pos - start - 2)
            type
            child
            pos
            err
            (parse_node f file (pos + 1) (pos + 2) err)
  unfolding scan
  scan_end e = rw (e, scan)

-- The properties are passed over, one turn of the loop for each byte of them.
pub scan_props :
    (fuel : ℕ) (file : List ℕ) (start type : ℕ) (props : List ℕ) (pos : ℕ) (err : LoaderError)
    (rest : List ℕ)
    → drop pos file ≡ escape props ++ rest
    → scan (length props + fuel) file start type false 0 null pos err
      ≡ scan fuel file start type false 0 null (pos + length (escape props)) err
unfolding escape
scan_props fuel file start type [] pos err rest e = ground arith
scan_props fuel file start type (c ∷ cs) pos err rest e = elim (Bool-cases (is_special c)) [
  | inl s ↦
      let here : drop pos file ≡ escape_char ∷ c ∷ (escape cs ++ rest) = ground arith in
      let there = drop_next file pos escape_char (c ∷ (escape cs ++ rest)) here in
      let two : pos + 1 + 1 ≡ pos + 2 = omega arith in
      ground (
        arith,
        scan_escape (length cs + fuel) file start type false 0 null pos err c
            (read_at file pos escape_char _ here) (read_at file (pos + 1) c _ there),
        scan_props fuel file start type cs (pos + 2) err rest (
            subst (λ p. drop p file ≡ escape cs ++ rest) two
              (drop_next file (pos + 1) c (escape cs ++ rest) there)),
      )
  | inr s ↦
      let here : drop pos file ≡ c ∷ (escape cs ++ rest) = ground arith in
      ground (
        arith,
        scan_plain (length cs + fuel) file start type false 0 null pos err c
            (read_at file pos c _ here),
        scan_props fuel file start type cs (pos + 1) err rest
            (drop_next file pos c (escape cs ++ rest) here),
      )
]

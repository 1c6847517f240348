-- ===== src/FileLoader/Parser/Total.antt =====
-- The parser reads a byte in each call, so it ends on every file.
use evolution078ots.Prelude.{
  ℕ, zero, suc, ◌+◌, ◌-◌, ◌≤◌, ◌<◌, ◌≡◌, Bool, true, false, none, some, List, [], ◌∷◌, ◌==◌, arith,
  length, Option-cases, Bool-cases, inl, inr, if◌then◌else◌,
}
use evolution078ots.FileLoader.{
  error_eof, LoaderError, node_start, node_end, escape_char, Node, null, node,
}
use evolution078ots.FileLoader.Parser.{
  Parse, parsed, failed, unfinished, read_byte, finish, parse_node, scan, parse,
}

-- A result, whose position lies between `lo` and the end of the file.
abbrev pub Ends : ℕ → ℕ → Parse → Type 0
Ends lo hi (parsed _ pos _) = (lo ≤ pos) × (pos ≤ hi)
Ends lo hi (failed _) = Unit {0}
Ends lo hi unfinished = ⊥

Ends-mono : (lo lo' hi : ℕ) (r : Parse) → lo ≤ lo' → Ends lo' hi r → Ends lo hi r
Ends-mono lo lo' hi (parsed _ pos _) h e = (omega arith, e.1)
Ends-mono lo lo' hi (failed _) h e = tt
Ends-mono lo lo' hi unfinished h e = e

read_byte_below : (file : List ℕ) (pos b : ℕ) → read_byte file pos ≡ some b → pos < length file
read_byte_below [] pos b e = cc
read_byte_below (x ∷ xs) zero b e = omega arith
read_byte_below (x ∷ xs) (suc pos) b e = omega (arith, read_byte_below xs pos b e)

sibling-Ends :
    (start props_size type lo hi : ℕ) (child : Node) (sibling : Parse)
    → Ends lo hi sibling
    → Ends lo hi (elim sibling [
      | parsed next pos' err' ↦ parsed (node start props_size type next child) pos' err'
      | failed err' ↦ failed err'
      | unfinished ↦ unfinished
    ])
sibling-Ends start props_size type lo hi child (parsed _ _ _) e = e
sibling-Ends start props_size type lo hi child (failed _) e = tt
sibling-Ends start props_size type lo hi child unfinished e = e

finish-Ends :
    (file : List ℕ) (start props_size type : ℕ) (child : Node) (pos : ℕ) (err : LoaderError)
    (sibling : Parse)
    → pos < length file
    → (pos + 2 ≤ length file → Ends (pos + 2) (length file) sibling)
    → Ends (pos + 1) (length file) (finish file start props_size type child pos err sibling)
unfolding finish
finish-Ends file start props_size type child pos err sibling h e =
    elim (Option-cases (read_byte file (pos + 1))) [
      | inl eq ↦ rw (eq, finish, Ends) (omega arith)
      | inr (b, eq) ↦
          rw (eq, finish, Ends)
            (elim (Bool-cases (b == node_start)) [
              | inl s ↦ rw s (
                  Ends-mono (pos + 1) (pos + 2) (length file) _ (omega arith) (
                    sibling-Ends start props_size type (pos + 2) (length file) child sibling
                      (e (omega (arith, read_byte_below file (pos + 1) b eq)))))
              | inr s ↦ rw s (elim (Bool-cases (b == node_end)) [
                | inl t ↦ rw t (omega arith)
                | inr t ↦ rw t tt
              ])
            ])
    ]

-- What goes on after a child has been read.
child-Ends :
    (lo hi : ℕ) (r : Parse) (more : Node → ℕ → LoaderError → Parse)
    → Ends lo hi r
    → ((child : Node) (pos : ℕ) (err : LoaderError)
        → lo ≤ pos
        → pos ≤ hi
        → Ends pos hi (more child pos err))
    → Ends lo hi (elim r [
      | parsed child' pos' err' ↦ more child' pos' err'
      | failed err' ↦ failed err'
      | unfinished ↦ unfinished
    ])
child-Ends lo hi (parsed child pos err) more e h =
    Ends-mono lo pos hi (more child pos err) e.0 (h child pos err e.0 e.1)
child-Ends lo hi (failed _) more e h = tt
child-Ends lo hi unfinished more e h = e

-- What goes on after a byte of the properties, or an escaped one.
plain-Ends :
    (file : List ℕ) (pos b : ℕ) (more : ℕ → Parse)
    → pos < length file
    → ((p : ℕ) → pos < p → p ≤ length file → Ends p (length file) (more p))
    → Ends pos (length file) (elim (b == escape_char) [
      | true ↦ elim (read_byte file (pos + 1)) [ none ↦ failed error_eof | some _ ↦ more (pos + 2) ]
      | false ↦ more (pos + 1)
    ])
plain-Ends file pos b more lt next = elim (Bool-cases (b == escape_char)) [
  | inl u ↦
      rw (u, Ends)
        (elim (Option-cases (read_byte file (pos + 1))) [
          | inl v ↦ rw (v, Ends) tt
          | inr (c, v) ↦
              rw (v, Ends)
                (Ends-mono pos (pos + 2) (length file) (more (pos + 2)) (omega arith) (
                  next (pos + 2) (omega arith) (omega (arith, read_byte_below file (pos + 1) c v))))
        ])
  | inr u ↦
      rw (u, Ends)
        (Ends-mono pos (pos + 1) (length file) (more (pos + 1)) (omega arith)
          (next (pos + 1) (omega arith) (omega arith)))
]

mutual
  unfolding parse_node scan

  parse_node-Ends :
      (fuel : ℕ) (file : List ℕ) (start pos : ℕ) (err : LoaderError)
      → pos ≤ length file
      → length file < fuel + pos
      → Ends pos (length file) (parse_node fuel file start pos err)
  parse_node-Ends zero file start pos err h k = absurd (omega arith)
  parse_node-Ends (suc fuel) file start pos err h k = elim (Option-cases (read_byte file pos)) [
    | inl eq ↦ rw (eq, parse_node, Ends) tt
    | inr (b, eq) ↦
        let lt = read_byte_below file pos b eq in
        rw (eq, parse_node, Ends)
          (Ends-mono pos (pos + 1) (length file) _ (omega arith)
            (scan-Ends fuel file start b false 0 null (pos + 1) err (omega arith) (omega arith)))
  ]

  scan-Ends :
      (fuel : ℕ) (file : List ℕ) (start type : ℕ) (set : Bool) (props_size : ℕ) (child : Node)
      (pos : ℕ) (err : LoaderError)
      → pos ≤ length file
      → length file < fuel + pos
      → Ends pos (length file) (scan fuel file start type set props_size child pos err)
  scan-Ends zero file start type set props_size child pos err h k = absurd (omega arith)
  scan-Ends (suc fuel) file start type set props_size child pos err h k =
      elim (Option-cases (read_byte file pos)) [
        | inl eq ↦ rw (eq, scan, Ends) tt
        | inr (b, eq) ↦
            let lt = read_byte_below file pos b eq in
            let next = λ (p : ℕ) (lo : pos < p) (hi : p ≤ length file).
              scan-Ends fuel file start type set props_size child p err hi (omega arith) in
            rw (eq, scan, Ends)
              (elim (Bool-cases (b == node_start)) [
                | inl s ↦
                    rw (s, scan, Ends)
                      (Ends-mono pos (pos + 1) (length file) _ (omega arith) (
                        child-Ends (pos + 1) (length file) (parse_node fuel file pos (pos + 1) err)
                          (λ child' pos' err'.
                            scan fuel file start type true (pos - start - 2) child' pos' err')
                          (parse_node-Ends fuel file pos (pos + 1) err (omega arith) (omega arith))
                          (λ child' pos' err' lo hi.
                            scan-Ends fuel file start type true (pos - start - 2) child' pos' err'
                              hi (omega arith))))
                | inr s ↦
                    rw (s, scan, Ends)
                      (elim (Bool-cases (b == node_end)) [
                        | inl t ↦
                            rw (t, scan, Ends)
                              (Ends-mono pos (pos + 1) (length file) _ (omega arith) (
                                finish-Ends file start (if set then props_size else pos - start - 2)
                                  type child pos err (parse_node fuel file (pos + 1) (pos + 2) err)
                                  lt
                                  (λ le.
                                    parse_node-Ends fuel file (pos + 1) (pos + 2) err le
                                      (omega arith))))
                        | inr t ↦
                            rw (t, scan, Ends)
                              (plain-Ends file pos b
                                (λ p. scan fuel file start type set props_size child p err) lt next)
                      ])
              ])
      ]

-- The parser ends on every file, from any position in it: its fuel does not run out, and where it succeeds the position lies
-- between the one where it began and the end of the file.
pub parse-Ends :
    (file : List ℕ) (start pos : ℕ) (err : LoaderError)
    → pos ≤ length file
    → Ends pos (length file) (parse file start pos err)
unfolding parse
parse-Ends file start pos err h =
    parse_node-Ends (suc (length file)) file start pos err h (omega arith)

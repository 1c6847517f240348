-- ===== src/FileLoader/Parser/Encoded.antt =====
-- The parser on the bytes of a forest.
use evolution078ots.Prelude.{
  ℕ, zero, suc, ◌+◌, ◌-◌, ◌≤◌, ◌<◌, ◌≡◌, refl, ap, ◌∙◌, true, false, some, List, [], ◌∷◌, ◌++◌,
  arith, length, drop, get_elem?, sym, subst,
}
use mathlib.Core.List.{append_assoc, append-nil}
use evolution078ots.FileLoader.{LoaderError, error_eof, node_start, node_end, Node, null, node}
use evolution078ots.FileLoader.Writer.{Forest, nil, cons, escape, encode}
use evolution078ots.FileLoader.Layout.{
  IsTyped, size, node_of, Closes, end_error, read_at, read_at_end, drop_next, drop_past,
  length-encode,
}
use evolution078ots.FileLoader.Parser.{
  parsed, read_byte, finish, parse_node, scan, read_version, open_file,
}
use evolution078ots.FileLoader.Parser.Steps.{scan_child, scan_end, scan_props}

-- The parser makes of the bytes at `s` what the layout says.
abbrev Parses : List ℕ → Forest → ℕ → LoaderError → LoaderError → Type 0
Parses file nil s err err' = Unit {0}
Parses file (cons type props children rest) s err err' =
    (fuel : ℕ)
    → size (cons type props children rest) < fuel
    → parse_node fuel file s (s + 1) err
      ≡ parsed (node_of (cons type props children rest) s)
          (s + size (cons type props children rest)) err'

-- From the end of the node, at `pos`, on.
finish_rest :
    (file : List ℕ) (s props_size type : ℕ) (child : Node) (pos : ℕ) (err : LoaderError)
    (rest : Forest) (tail : List ℕ) (fuel : ℕ)
    → drop (pos + 1) file ≡ encode rest ++ tail
    → Closes tail
    → Parses file rest (pos + 1) err (end_error tail err)
    → size rest < fuel
    → finish file s props_size type child pos err (parse_node fuel file (pos + 1) (pos + 2) err)
      ≡ parsed
          (node s props_size type (node_of rest (pos + 1)) child)
          (pos + 1 + size rest)
          (end_error tail err)
unfolding finish encode node_of
finish_rest file s props_size type child pos err nil [] fuel e c p h =
    rw (read_at_end file (pos + 1) e, finish) (ground arith)
finish_rest file s props_size type child pos err nil (b ∷ bs) fuel e c p h =
    rw (read_at file (pos + 1) b bs e, c, finish) (ground arith)
finish_rest file s props_size type child pos err (cons t ps ch r) tail fuel e c p h =
    let k : pos + 1 + 1 ≡ pos + 2 = omega arith in
    let q =
      subst
        (λ x.
          parse_node fuel file (pos + 1) x err
          ≡ parsed (node_of (cons t ps ch r) (pos + 1)) (pos + 1 + size (cons t ps ch r))
              (end_error tail err))
        k (p fuel h) in
    rw (read_at file (pos + 1) node_start _ e, finish) (rw (q, finish) (ground arith))

-- From the end of the properties, at `q`, to the end of the node.
scan_children :
    (file : List ℕ) (s type q : ℕ) (err : LoaderError) (children : Forest) (more : List ℕ)
    (fuel : ℕ)
    → drop q file ≡ encode children ++ node_end ∷ more
    → Parses file children q err err
    → length (encode children) ≡ size children
    → size children + 1 < fuel
    → (f : ℕ) × (fuel ≤ f + 2)
      × (scan fuel file s type false 0 null q err
          ≡ finish file s
              (q - s - 2)
              type
              (node_of children q)
              (q + size children)
              err
              (parse_node f file (q + size children + 1) (q + size children + 2) err))
unfolding node_of
scan_children file s type q err children more zero e p len h = absurd (omega arith)
scan_children file s type q err nil more (suc f) e p len h = (
  f,
  omega arith,
  ground (
    arith,
    scan_end f file s type false 0 null q err (unfold encode in read_at file q node_end more e),
  ),
)
scan_children file s type q err (cons t ps ch r) more (suc zero) e p len h = absurd (omega arith)
scan_children file s type q err (cons t ps ch r) more (suc (suc f)) e p len h = (
  f,
  omega arith,
  ground (
    arith,
    scan_child (suc f) file s type false 0 null q err (node_of (cons t ps ch r) q)
        (q + size (cons t ps ch r)) err (unfold encode in read_at file q node_start _ e)
        (p (suc f) (omega arith)),
    scan_end f file s type true (q - s - 2) (node_of (cons t ps ch r) q) (q + size (cons t ps ch r))
        err (read_at file _ node_end more ended),
  ),
)
  where
    ended : drop (q + size (cons t ps ch r)) file ≡ node_end ∷ more
    ended =
        subst (λ n. drop (q + n) file ≡ node_end ∷ more) len
          (drop_past file q (encode (cons t ps ch r)) (node_end ∷ more) e)

pub encode_cons :
    (type : ℕ) (props : List ℕ) (children rest : Forest) (tail : List ℕ)
    → type < 0xFD
    → encode (cons type props children rest) ++ tail
      ≡ node_start ∷ type ∷ (escape props ++ (encode children ++ node_end ∷ (encode rest ++ tail)))
unfolding encode
encode_cons type props children rest tail h = rw (plain type h) (simp append_assoc)
  where
    plain : (type : ℕ) → type < 0xFD → escape (type ∷ []) ≡ type ∷ []
    plain type h = unfold escape in ground arith

length-le-escape : (props : List ℕ) → length props ≤ length (escape props)
unfolding escape
length-le-escape [] = omega arith
length-le-escape (c ∷ cs) = ground (arith, length-le-escape cs)

parse_node_type :
    (f : ℕ) (file : List ℕ) (s type : ℕ) (err : LoaderError)
    → read_byte file (s + 1) ≡ some type
    → parse_node (suc f) file s (s + 1) err ≡ scan f file s type false 0 null (s + 1 + 1) err
unfolding parse_node
parse_node_type f file s type err e = rw (e, parse_node)

-- One node, given its children and its siblings.
module _ (file : List ℕ) (type : ℕ) (props : List ℕ) (children rest : Forest) (s : ℕ)
    (err : LoaderError) (tail : List ℕ) (small : type < 0xFD)
    (at : drop s file ≡ encode (cons type props children rest) ++ tail) where
  behind_start :
      drop (s + 1) file
      ≡ type ∷ (escape props ++ (encode children ++ node_end ∷ (encode rest ++ tail)))
  behind_start =
      drop_next file s node_start _ (at ∙ encode_cons type props children rest tail small)

  behind_type :
      drop (s + 1 + 1) file ≡ escape props ++ (encode children ++ node_end ∷ (encode rest ++ tail))
  behind_type = drop_next file (s + 1) type _ behind_start

  behind_props :
      drop (s + 1 + 1 + length (escape props)) file
      ≡ encode children ++ node_end ∷ (encode rest ++ tail)
  behind_props = drop_past file (s + 1 + 1) (escape props) _ behind_type

  -- Where the children begin.
  abbrev q : ℕ
  q = s + 1 + 1 + length (escape props)

  behind_end :
      length (encode children) ≡ size children
      → drop (q + size children + 1) file ≡ encode rest ++ tail
  behind_end len = drop_next file _ node_end _ (
      subst (λ n. drop (q + n) file ≡ node_end ∷ (encode rest ++ tail)) len
        (drop_past file q (encode children) _ behind_props))

  parse_cons :
      (fuel : ℕ)
      → Closes tail
      → length (encode children) ≡ size children
      → Parses file children q err err
      → Parses file rest (q + size children + 1) err (end_error tail err)
      → size (cons type props children rest) < suc (length props + fuel)
      → parse_node (suc (length props + fuel)) file s (s + 1) err
        ≡ parsed
            (node_of (cons type props children rest) s)
            (s + size (cons type props children rest))
            (end_error tail err)
  unfolding node_of
  parse_cons fuel c len pc pr h =
      let shorter = length-le-escape props in
      let (f, enough, sc) =
        scan_children file s type q err children (encode rest ++ tail) fuel behind_props pc len
          (omega (arith, shorter)) in
      ground (
        arith,
        parse_node_type (length props + fuel) file s type err
            (read_at file (s + 1) type _ behind_start),
        scan_props fuel file s type props (s + 1 + 1) err _ behind_type,
        sc,
        finish_rest file s (q - s - 2) type (node_of children q) (q + size children) err rest tail f
            (behind_end len) c pr (omega (arith, shorter)),
      )

  parse_cons_any :
      Closes tail
      → length (encode children) ≡ size children
      → Parses file children q err err
      → Parses file rest (q + size children + 1) err (end_error tail err)
      → Parses file (cons type props children rest) s err (end_error tail err)
  parse_cons_any c len pc pr fuel h =
      subst
        (λ k.
          size (cons type props children rest) < k
          → parse_node k file s (s + 1) err
            ≡ parsed (node_of (cons type props children rest) s)
                (s + size (cons type props children rest)) (end_error tail err))
        (sym enough) (parse_cons (fuel - 1 - length props) c len pc pr) h
    where
      enough : fuel ≡ suc (length props + (fuel - 1 - length props))
      enough = unfold size in omega (arith, length-le-escape props)

-- The bytes of a forest, followed by the end of the file or of the parent, are parsed as its layout.
parse_forest :
    (file : List ℕ) (forest : Forest) (s : ℕ) (err : LoaderError) (tail : List ℕ)
    → drop s file ≡ encode forest ++ tail
    → Closes tail
    → IsTyped forest
    → Parses file forest s err (end_error tail err)
parse_forest file nil s err tail e c typed = tt
parse_forest file (cons type props children rest) s err tail e c typed =
    let len = length-encode children typed.1 in
    parse_cons_any file type props children rest s err tail typed.0 e c len
      (parse_forest file children (s + 1 + 1 + length (escape props)) err
        (node_end ∷ (encode rest ++ tail))
        (behind_props file type props children rest s err tail typed.0 e) refl typed.1)
      (parse_forest file rest (s + 1 + 1 + length (escape props) + size children + 1) err tail
        (behind_end file type props children rest s err tail typed.0 e len) c typed.2)

-- A file that holds the version 0 and then the bytes of a node with its siblings, whose types are
-- no special bytes, is opened: the nodes are those of the layout, the whole file has been read, and
-- the error is that of the end of the file.
pub open_file-encode :
    (type : ℕ) (props : List ℕ) (children rest : Forest) (garbage : ℕ) (err : LoaderError)
    → IsTyped (cons type props children rest)
    → let file = 0 ∷ 0 ∷ 0 ∷ 0 ∷ encode (cons type props children rest) in
      open_file file garbage err
      ≡ parsed (node_of (cons type props children rest) 4) (length file) error_eof
unfolding open_file read_version
open_file-encode type props children rest garbage err typed =
    ground (arith, all, first type props children rest)
  where
    forest : Forest
    forest = cons type props children rest

    file : List ℕ
    file = 0 ∷ 0 ∷ 0 ∷ 0 ∷ encode forest

    first :
        (type : ℕ) (props : List ℕ) (children rest : Forest)
        → get_elem? (encode (cons type props children rest)) 0 ≡ some node_start
    first type props children rest = unfold encode in refl

    len : length file ≡ 4 + size forest
    len = omega (arith, length-encode forest typed)

    at : drop 4 file ≡ encode forest ++ []
    at = sym (append-nil (encode forest))

    all :
        parse_node (suc (length file)) file 4 5 err
        ≡ parsed (node_of forest 4) (length file) error_eof
    all =
        parse_forest file forest 4 err [] at tt typed (suc (length file)) (omega (arith, len))
        ∙ ap (λ n. parsed (node_of forest 4) n error_eof) (sym len)

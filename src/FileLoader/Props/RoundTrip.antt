-- ===== src/FileLoader/Props/RoundTrip.antt =====
-- A node file from the calls that write it to the calls that read it.
use evolution078ots.Prelude.{
  ℕ, ◌+◌, ◌≤◌, ◌≡◌, refl, ap, ◌-◌, List, [], ◌∷◌, ◌++◌, arith, length, drop, leb, ◌∙◌, sym,
  if◌then◌else◌, subst,
}
use mathlib.Core.List.{append-nil}
use evolution078ots.FileLoader.{
  LoaderError, error_none, error_eof, node_start, node_end, Node, null, node,
}
use evolution078ots.FileLoader.Writer.{
  Output, Forest, nil, cons, escape, encode, write_forest, open_for_writing, write_data,
}
use evolution078ots.FileLoader.Writer.Room.{write_forest_room, extend}
use evolution078ots.FileLoader.Layout.{IsTyped, size, node_of, drop_next, drop_past, length-encode}
use evolution078ots.FileLoader.Parser.{parsed, open_file}
use evolution078ots.FileLoader.Parser.Encoded.{encode_cons, open_file-encode}
use evolution078ots.FileLoader.Props.{props, overrun, get_props}
use evolution078ots.FileLoader.Props.Unescape.{get_props-escape}

-- The escaped properties of each node fit into the buffer after one enlargement.
abbrev pub AreSmall : Forest → ℕ → Type 0
AreSmall nil buffer_size = Unit {0}
AreSmall (cons type ps children rest) buffer_size =
    (length (escape ps) ≤ buffer_size + 1024)
    × AreSmall children buffer_size
    × AreSmall rest buffer_size

-- The nodes have the types of the forest, its shape, and getProps returns the properties of each.
abbrev pub Holds : List ℕ → ℕ → ℕ → LoaderError → Node → Forest → Type 0
Holds file buffer_size behind err null nil = Unit {0}
Holds file buffer_size behind err null (cons _ _ _ _) = ⊥
Holds file buffer_size behind err (node _ _ _ _ _) nil = ⊥
Holds file buffer_size behind err (node start props_size t next child)
      (cons type ps children rest) =
    (t ≡ type)
    × ((get_props file buffer_size behind (node start props_size t next child) err).0 ≡ props ps)
    × Holds file buffer_size behind err child children
    × Holds file buffer_size behind err next rest

module _ (file : List ℕ) (buffer_size behind : ℕ) (err : LoaderError) where
  node_of-Holds :
      (f : Forest) (s : ℕ) (tail : List ℕ)
      → drop s file ≡ encode f ++ tail
      → IsTyped f
      → AreSmall f buffer_size
      → Holds file buffer_size behind err (node_of f s) f
  unfolding node_of
  node_of-Holds nil s tail at typed small = tt
  node_of-Holds (cons type ps children rest) s tail at typed small = (
    refl,
    get_props-escape file buffer_size behind s type _ _ err ps more at_props ∙ fits,
    node_of-Holds children (s + 2 + length (escape ps)) _ at_children typed.1 small.1,
    node_of-Holds rest (s + 3 + length (escape ps) + size children) tail at_rest typed.2 small.2,
  )
    where
      fits :
          (if leb (length (escape ps)) (buffer_size + 1024) then props ps else overrun) ≡ props ps
      fits = let room = small.0 in ground arith

      more : List ℕ
      more = encode children ++ node_end ∷ (encode rest ++ tail)

      at_props : drop (s + 2) file ≡ escape ps ++ more
      at_props =
          let two : s + 1 + 1 ≡ s + 2 = omega arith in
          subst (λ p. drop p file ≡ escape ps ++ more) two
            (drop_next file (s + 1) type _
              (drop_next file s node_start _ (at ∙ encode_cons type ps children rest tail typed.0)))

      at_children : drop (s + 2 + length (escape ps)) file ≡ more
      at_children = drop_past file (s + 2) (escape ps) more at_props

      at_rest : drop (s + 3 + length (escape ps) + size children) file ≡ encode rest ++ tail
      at_rest =
          let len = length-encode children typed.1 in
          let there : s + 2 + length (escape ps) + length (encode children) + 1
              ≡ s + 3 + length (escape ps) + size children =
            omega (arith, len) in
          subst (λ p. drop p file ≡ encode rest ++ tail) there
            (drop_next file _ node_end _
              (drop_past file (s + 2 + length (escape ps)) (encode children) _ at_children))

-- The file after openFile has written the version.
opened_room :
    (room : ℕ)
    → 4 ≤ room
    → open_for_writing room
      ≡ record { written = 0 ∷ 0 ∷ 0 ∷ 0 ∷ []; room = room - 4; last_error = error_none }
unfolding open_for_writing write_data
opened_room room h = ground arith

file_written :
    (f : Forest) (room : ℕ)
    → 4 + length (encode f) ≤ room
    → (write_forest (open_for_writing room) f).written ≡ 0 ∷ 0 ∷ 0 ∷ 0 ∷ encode f
file_written f room h =
    let opened = opened_room room (omega arith) in
    ap (λ (o : Output). o.written)
      (ap (λ o. write_forest o f) opened ∙ write_forest_room _ f (omega arith))
    ∙ unfold extend in refl

-- A file written from a node with its siblings, all of types below 0xFD, with room for it, and then
-- opened: it is read to its end without an error but that of the end of the file, the nodes have the types and the shape that
-- were written, and getProps, with a buffer of a size that one enlargement makes large enough,
-- returns the properties of every node.
pub open_file-write_forest :
    (type : ℕ) (ps : List ℕ) (children rest : Forest) (room garbage buffer_size behind : ℕ)
    (err : LoaderError)
    → IsTyped (cons type ps children rest)
    → AreSmall (cons type ps children rest) buffer_size
    → 4 + length (encode (cons type ps children rest)) ≤ room
    → let forest = cons type ps children rest in
      let file = (write_forest (open_for_writing room) forest).written in
      (open_file file garbage err ≡ parsed (node_of forest 4) (length file) error_eof)
      × Holds file buffer_size behind err (node_of forest 4) forest
open_file-write_forest type ps children rest room garbage buffer_size behind err typed small h =
    rw (file_written (cons type ps children rest) room h) (
      open_file-encode type ps children rest garbage err typed,
      node_of-Holds _ buffer_size behind err (cons type ps children rest) 4 []
          (sym (append-nil (encode (cons type ps children rest)))) typed small,
    )

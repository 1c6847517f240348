-- ===== src/FileLoader/Parser.antt =====
-- Reading a node file: openFile in its reading mode, and parseNode.
use evolution078ots.Prelude.{
  ℕ, zero, suc, ◌+◌, ◌-◌, ◌*◌, Bool, true, false, not, Option, none, some, List, [], ◌∷◌, ◌==◌,
  if◌then◌else◌, length, get_elem?, ltb, get_or,
}
use evolution078ots.FileLoader.{
  LoaderError, error_none, error_eof, error_invalid_format, error_invalid_file_version, node_start,
  node_end, escape_char, Node, null, node,
}
pub mod Total
pub mod Steps
pub mod Encoded

-- What parseNode leaves: a node with its siblings, the file's position and m_lastError. `unfinished`
-- stands for a fuel that ran out; it does not occur (Parser/Total.antt).
pub data Parse : Type 0 where
  parsed : Node → ℕ → LoaderError → Parse
  failed : LoaderError → Parse
  unfinished : Parse

-- `fgetc` at a position.
abbrev pub read_byte : List ℕ → ℕ → Option ℕ
read_byte file pos = get_elem? file pos

-- After the end of a node at `pos`: the end of the file, a sibling, or the end of the parent, whose
-- byte is read again.
unfoldable pub finish : List ℕ → ℕ → ℕ → ℕ → Node → ℕ → LoaderError → Parse → Parse
finish file start props_size type child pos err sibling = elim (read_byte file (pos + 1)) [
  | none ↦ parsed (node start props_size type null child) (pos + 1) error_eof
  | some byte ↦
      if byte == node_start
      then elim sibling [
        | parsed next pos' err' ↦ parsed (node start props_size type next child) pos' err'
        | failed err' ↦ failed err'
        | unfinished ↦ unfinished
      ]
      else if byte == node_end
      then parsed (node start props_size type null child) (pos + 1) err
      else failed error_invalid_format
]

mutual
  -- The outer loop: `pos` is behind the NODE_START byte of the node, which stands at `start`.
  pub parse_node : ℕ → List ℕ → ℕ → ℕ → LoaderError → Parse
  parse_node zero file start pos err = unfinished
  parse_node (suc fuel) file start pos err = elim (read_byte file pos) [
    | none ↦ failed error_eof
    | some type ↦ scan fuel file start type false 0 null (pos + 1) err
  ]

  -- The inner loop: search the child and the next node. `set` is setPropsSize.
  pub scan : ℕ → List ℕ → ℕ → ℕ → Bool → ℕ → Node → ℕ → LoaderError → Parse
  scan zero file start type set props_size child pos err = unfinished
  scan (suc fuel) file start type set props_size child pos err = elim (read_byte file pos) [
    | none ↦ failed error_eof
    | some byte ↦ elim (byte == node_start) [
      | true ↦ elim (parse_node fuel file pos (pos + 1) err) [
        | parsed child' pos' err' ↦
            scan fuel file start type true (pos - start - 2) child' pos' err'
        | failed err' ↦ failed err'
        | unfinished ↦ unfinished
      ]
      | false ↦ elim (byte == node_end) [
        | true ↦
            let sibling = parse_node fuel file (pos + 1) (pos + 2) err in
            finish file start (if set then props_size else pos - start - 2) type child pos err
              sibling
        | false ↦ elim (byte == escape_char) [
          | true ↦ elim (read_byte file (pos + 1)) [
            | none ↦ failed error_eof
            | some _ ↦ scan fuel file start type set props_size child (pos + 2) err
          ]
          | false ↦ scan fuel file start type set props_size child (pos + 1) err
        ]
      ]
    ]
  ]

-- Each call reads a byte, so this fuel is enough.
unfoldable pub parse : List ℕ → ℕ → ℕ → LoaderError → Parse
parse file start pos err = parse_node (suc (length file)) file start pos err

-- The little-endian version at the start of the file. `fread` leaves the variable as it was where
-- the file is too short; it is then some `garbage`.
unfoldable pub read_version : List ℕ → ℕ → ℕ
read_version file garbage =
    if ltb (length file) 4
    then garbage
    else get_or file 0 0
      + get_or file 1 0 * 256
      + get_or file 2 0 * 65536
      + get_or file 3 0 * 16777216

-- openFile for reading, of a file that can be opened.
unfoldable pub open_file : List ℕ → ℕ → LoaderError → Parse
unfolding parse
open_file file garbage err =
    if ltb 0 (read_version file garbage)
    then failed error_invalid_file_version
    else elim (read_byte file 4) [
      | none ↦ failed error_eof
      | some byte ↦ if byte == node_start then parse file 4 5 err else failed err
    ]

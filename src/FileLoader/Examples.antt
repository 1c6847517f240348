-- ===== src/FileLoader/Examples.antt =====
-- The theorems about node files at concrete inputs.
use evolution078ots.Prelude.{◌≤◌, ◌<◌, ◌≡◌, refl, ◌⊎◌, some, List, [], ◌∷◌, map, arith, length}
use evolution078ots.FileLoader.{error_none, error_eof, error_couldnotwrite, null, node}
use evolution078ots.FileLoader.Writer.{
  Output, Forest, nil, cons, escape, encode, write_forest, open_for_writing, set_props,
}
use evolution078ots.FileLoader.Writer.Room.{extend, set_props_lem}
use evolution078ots.FileLoader.Layout.{node_of}
use evolution078ots.FileLoader.Parser.{parse, parsed, open_file}
use evolution078ots.FileLoader.Parser.Total.{Ends, parse-Ends}
use evolution078ots.FileLoader.Props.{props, get_props}
use evolution078ots.FileLoader.Props.Unescape.{get_props-escape}
use evolution078ots.FileLoader.Props.RoundTrip.{Holds, open_file-write_forest}
use evolution078ots.FileLoader.PropStream.{empty_stream}
use evolution078ots.FileLoader.PropStream.Stream.{
  Property, uchar, string, kind, add_all, get_all, IsAllocated, get_all-add_all,
}

-- A root with two children; its properties hold two special bytes.
abbrev some_children : Forest
some_children = cons 2 (9 ∷ []) nil (cons 3 [] nil nil)

abbrev some_forest : Forest
some_forest = cons 1 (0xFE ∷ 7 ∷ 0xFD ∷ []) some_children nil

open_file-write_forest_example :
    let file = (write_forest (open_for_writing 100) some_forest).written in
    (open_file file 0 error_none ≡ parsed (node_of some_forest 4) (length file) error_eof)
    × Holds file 1024 0 error_none (node_of some_forest 4) some_forest
open_file-write_forest_example =
    open_file-write_forest 1 (0xFE ∷ 7 ∷ 0xFD ∷ []) some_children nil 100 0 1024 0 error_none
      (unfold encode escape in omega arith) (unfold encode escape in omega arith)
      (unfold encode escape in omega arith)

parse-Ends_example : Ends 1 4 (parse (0xFE ∷ 1 ∷ 0xFF ∷ 0xFE ∷ []) 0 1 error_none)
parse-Ends_example = parse-Ends (0xFE ∷ 1 ∷ 0xFF ∷ 0xFE ∷ []) 0 1 error_none (omega arith)

abbrev small_disk : Output
small_disk = record { written = []; room = 3; last_error = error_none }

set_props_lem_example :
    ((length (escape (1 ∷ 0xFF ∷ 2 ∷ [])) ≤ 3)
      × (set_props small_disk (1 ∷ 0xFF ∷ 2 ∷ [])
          ≡ (error_none, extend small_disk (escape (1 ∷ 0xFF ∷ 2 ∷ [])))))
    ⊎ ((3 < length (escape (1 ∷ 0xFF ∷ 2 ∷ [])))
        × ((set_props small_disk (1 ∷ 0xFF ∷ 2 ∷ [])).0 ≡ error_couldnotwrite))
set_props_lem_example = set_props_lem small_disk (1 ∷ 0xFF ∷ 2 ∷ [])

get_props-escape_example :
    (get_props (0xFE ∷ 1 ∷ 0xFD ∷ 0xFF ∷ 5 ∷ 0xFF ∷ []) 1024 0 (node 0 3 1 null null) error_none).0
    ≡ props (0xFF ∷ 5 ∷ [])
unfolding escape
get_props-escape_example =
    get_props-escape (0xFE ∷ 1 ∷ 0xFD ∷ 0xFF ∷ 5 ∷ 0xFF ∷ []) 1024 0 0 1 null null error_none
      (0xFF ∷ 5 ∷ []) (0xFF ∷ []) refl

abbrev some_properties : List Property
some_properties = uchar 200 ∷ string (b'x' ∷ b'y' ∷ []) ∷ []

get_all-add_all_example :
    (get_all (map kind some_properties) (add_all empty_stream some_properties).buffer
      ≡ some (some_properties, []))
    × IsAllocated (add_all empty_stream some_properties)
get_all-add_all_example = get_all-add_all some_properties (omega arith)

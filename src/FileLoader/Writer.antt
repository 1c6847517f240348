-- ===== src/FileLoader/Writer.antt =====
-- Writing a node file: openFile in its writing mode, startNode, setProps, endNode, writeData.
use evolution078ots.Prelude.{
  ℕ, ◌-◌, Bool, true, false, ◌||◌, ◌&&◌, List, [], ◌∷◌, ◌++◌, ◌==◌, if◌then◌else◌,
}
use evolution078ots.FileLoader.{
  LoaderError, error_none, error_couldnotwrite, node_start, node_end, escape_char,
}
pub mod Room

-- The file that is written. `room` is the number of bytes that the disk still takes: `fwrite` of a
-- byte fails when it is 0.
pub record Output : Type 0 where
  pub written : List ℕ
  pub room : ℕ
  pub last_error : LoaderError

unfoldable pub fwrite : Output → ℕ → Bool × Output
fwrite o c =
    if o.room == 0
    then (false, record o { last_error = error_couldnotwrite })
    else (true, record o { written = o.written ++ c ∷ []; room = o.room - 1 })

abbrev pub is_special : ℕ → Bool
is_special c = c == node_start || c == node_end || c == escape_char

-- One turn of the loop of writeData.
unfoldable pub write_char : Output → ℕ → Bool → Bool × Output
unfolding fwrite
write_char o c unescape =
    let (done, o') = fwrite o escape_char in
    if unescape && is_special c then if done then fwrite o' c else (false, o') else fwrite o c

unfoldable pub write_data : Output → List ℕ → Bool → Bool × Output
unfolding write_char
write_data o [] unescape = (true, o)
write_data o (c ∷ cs) unescape =
    let (done, o') = write_char o c unescape in
    let rest = write_data o' cs unescape in if done then rest else (false, o')

-- openFile for writing: the file begins with the version, four zero bytes. The result of writeData
-- is not looked at, here and in the two functions below.
unfoldable pub open_for_writing : ℕ → Output
open_for_writing room =
    (write_data (record { written = []; room = room; last_error = error_none }) (0 ∷ 0 ∷ 0 ∷ 0 ∷ [])
      false).1

unfoldable pub start_node : Output → ℕ → Output
start_node o type = (write_data (write_data o (node_start ∷ []) false).1 (type ∷ []) true).1

unfoldable pub end_node : Output → Output
end_node o = (write_data o (node_end ∷ []) false).1

-- It returns the error of the loader. `size`, the length of `bytes`, has 16 bits in the source.
unfoldable pub set_props : Output → List ℕ → LoaderError × Output
set_props o bytes =
    let (done, o') = write_data o bytes true in
    if done then (error_none, o') else (o'.last_error, o')

-- What the calls are meant to write: the bytes with an escape in front of each special one.
unfoldable pub escape : List ℕ → List ℕ
escape [] = []
escape (c ∷ cs) = let rest = escape cs in if is_special c then escape_char ∷ c ∷ rest else c ∷ rest

-- A sequence of nodes with what they hold, first sibling first.
pub data Forest : Type 0 where
  nil : Forest
  cons : (type : ℕ) (props : List ℕ) (children rest : Forest) → Forest

-- The calls that a client makes to write it.
unfoldable pub write_forest : Output → Forest → Output
write_forest o nil = o
write_forest o (cons type props children rest) =
    write_forest (end_node (write_forest (set_props (start_node o type) props).1 children)) rest

-- The bytes of it.
unfoldable pub encode : Forest → List ℕ
encode nil = []
encode (cons type props children rest) =
    node_start ∷ escape (type ∷ []) ++ (escape props ++ (encode children ++ node_end ∷ encode rest))

-- ===== src/FileLoader/Props.antt =====
-- getProps of source/fileloader.cpp: the properties of a node are read into the loader's buffer and
-- unescaped there.
use evolution078ots.Prelude.{
  ℕ, ◌+◌, List, [], ◌∷◌, ltb, leb, ◌==◌, if◌then◌else◌, length, take, drop,
}
use evolution078ots.FileLoader.{LoaderError, error_none, error_eof, escape_char, Node, null, node}
pub mod Unescape
pub mod RoundTrip

-- What getProps does: it returns the bytes, or NULL, or `fread` has written past the buffer.
pub data Props : Type 0 where
  props : List ℕ → Props
  no_props : LoaderError → Props
  overrun : Props

-- The loop that unescapes, over the bytes of the buffer. `behind` is the byte that follows them in
-- the buffer: an escape at the very end takes it.
unfoldable pub unescape : ℕ → List ℕ → List ℕ
unescape behind [] = []
unescape behind (c ∷ []) = if c == escape_char then behind ∷ [] else c ∷ []
unescape behind (c ∷ d ∷ cs) =
    let escaped = d ∷ unescape behind cs in
    let plain = c ∷ unescape behind (d ∷ cs) in if c == escape_char then escaped else plain

-- m_buffer_size after the buffer has been replaced where it is too small.
unfoldable pub grown : ℕ → ℕ → ℕ
grown buffer_size props_size =
    if leb buffer_size props_size then buffer_size + 1024 else buffer_size

-- readBytes, and the loop.
unfoldable pub read_props : List ℕ → ℕ → ℕ → ℕ → ℕ → LoaderError → Props
read_props file buffer_size behind start props_size err =
    let bytes = take props_size (drop (start + 2) file) in
    if ltb buffer_size (length bytes)
    then overrun
    else if length bytes == props_size
    then props (unescape behind bytes)
    else no_props error_eof

-- The result, and m_buffer_size after the call.
unfoldable pub get_props : List ℕ → ℕ → ℕ → Node → LoaderError → Props × ℕ
unfolding read_props grown
get_props file buffer_size behind null err = (no_props err, buffer_size)
get_props file buffer_size behind (node start props_size type next child) err =
    let size = grown buffer_size props_size in
    (read_props file size behind start props_size err, size)

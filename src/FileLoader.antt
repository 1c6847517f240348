-- ===== src/FileLoader.antt =====
-- source/fileloader.h and .cpp: the node files (.otb, .otbm), without the block cache but for Cache.
-- A file is the list of its bytes; ftell and fseek are positions in it and do not fail.
use evolution078ots.Prelude.{ℕ}
pub mod Writer
pub mod Layout
pub mod Parser
pub mod Props
pub mod PropStream
pub mod Cache
mod Examples

-- FILELOADER_ERRORS.
pub data LoaderError : Type 0 where
  error_none error_invalid_file_version error_can_not_open error_can_not_create : LoaderError
  error_eof error_seek_error error_not_open error_invalid_node : LoaderError
  error_invalid_format error_tell_error error_couldnotwrite error_cache_error : LoaderError

-- SPECIAL_BYTES.
abbrev pub node_start : ℕ
node_start = 0xFE

abbrev pub node_end : ℕ
node_end = 0xFF

abbrev pub escape_char : ℕ
escape_char = 0xFD

-- struct NodeStruct, with `next` and `child` in place of the pointers.
pub data Node : Type 0 where
  null : Node
  node : (start props_size type : ℕ) (next child : Node) → Node

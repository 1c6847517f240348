-- ===== src/FileLoader/Layout.antt =====
-- Where the nodes of an encoded file stand, and what the parser should make of it.
use evolution078ots.Prelude.{
  ℕ, zero, suc, ◌+◌, ◌<◌, ◌≡◌, refl, some, none, List, [], ◌∷◌, ◌++◌, arith, length, drop,
  get_elem?, length-append,
}
use evolution078ots.FileLoader.{LoaderError, error_eof, node_end, Node, null, node}
use evolution078ots.FileLoader.Writer.{Forest, nil, cons, escape, encode}

-- The type of a node is read without unescaping, so it must not be a special byte.
abbrev pub IsTyped : Forest → Type 0
IsTyped nil = Unit {0}
IsTyped (cons type props children rest) = (type < 0xFD) × IsTyped children × IsTyped rest

-- The bytes that it takes.
unfoldable pub size : Forest → ℕ
size nil = 0
size (cons type props children rest) = 3 + length (escape props) + size children + size rest

-- The nodes of a forest whose bytes begin at `start`.
unfoldable pub node_of : Forest → ℕ → Node
unfolding size
node_of nil start = null
node_of (cons type props children rest) start =
    node start (length (escape props)) type
      (node_of rest (start + 3 + length (escape props) + size children))
      (node_of children (start + 2 + length (escape props)))

-- Behind a sequence of siblings stands the end of the file or the end of their parent.
abbrev pub Closes : List ℕ → Type 0
Closes [] = Unit {0}
Closes (b ∷ _) = b ≡ node_end

-- m_lastError after the parse: the end of the file leaves its mark.
abbrev pub end_error : List ℕ → LoaderError → LoaderError
end_error [] err = error_eof
end_error (_ ∷ _) err = err

pub length-encode : (f : Forest) → IsTyped f → length (encode f) ≡ size f
unfolding encode size escape
length-encode nil h = refl
length-encode (cons type props children rest) h = ground (
  arith,
  length-encode children h.1,
  length-encode rest h.2,
  length-append (escape props) (encode children ++ node_end ∷ encode rest),
  length-append (encode children) (node_end ∷ encode rest),
)

-- Reading at a place whose bytes are known.
pub read_at :
    (file : List ℕ) (pos b : ℕ) (bs : List ℕ) → drop pos file ≡ b ∷ bs → get_elem? file pos ≡ some b
read_at [] zero b bs e = cc
read_at [] (suc pos) b bs e = cc
read_at (x ∷ xs) zero b bs e = cc
read_at (x ∷ xs) (suc pos) b bs e = read_at xs pos b bs e

pub drop_next :
    (file : List ℕ) (pos b : ℕ) (bs : List ℕ) → drop pos file ≡ b ∷ bs → drop (pos + 1) file ≡ bs
drop_next [] zero b bs e = cc
drop_next [] (suc pos) b bs e = cc
drop_next (x ∷ xs) zero b bs e = cc
drop_next (x ∷ xs) (suc pos) b bs e =
    let k : suc pos + 1 ≡ suc (pos + 1) = omega arith in rw k (drop_next xs pos b bs e)

pub drop_past :
    (file : List ℕ) (pos : ℕ) (xs rest : List ℕ)
    → drop pos file ≡ xs ++ rest
    → drop (pos + length xs) file ≡ rest
drop_past file pos [] rest e = let k : pos + 0 ≡ pos = omega arith in rw k e
drop_past file pos (x ∷ xs) rest e =
    let k : pos + suc (length xs) ≡ pos + 1 + length xs = omega arith in
    rw k (drop_past file (pos + 1) xs rest (drop_next file pos x (xs ++ rest) e))

pub read_at_end : (file : List ℕ) (pos : ℕ) → drop pos file ≡ [] → get_elem? file pos ≡ none
read_at_end [] zero e = refl
read_at_end [] (suc pos) e = refl
read_at_end (x ∷ xs) zero e = cc
read_at_end (x ∷ xs) (suc pos) e = read_at_end xs pos e

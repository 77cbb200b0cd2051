-- ===== src/Site/Tree.antt =====
-- File trees, and `directory_tree_digest` of tools/ro_repo.py. A name is the list of its bytes in
-- UTF-8, whose order is that of the texts. Devices, sockets and broken links are absent.
pub mod Stream
use ro_repo.Base.{
  ℕ, suc, zero, ◌+◌, ◌/◌, ◌%◌, ◌^◌, Bool, true, false, Option, none, some, List, [], ◌∷◌, ◌++◌,
  Result, ok, err, ◌>>=◌, ◌>>◌, raise_if, if◌then◌else◌, leb, length,
}
use ro_repo.Base.Text.{Text, codes, text_eq, text_lt}

-- What stands at a path; a link leads to a node.
mutual
  pub data Node : Type 0 where
    file : Text → Node
    dir : Entries → Node
    link : Node → Node

  pub data Entries : Type 0 where
    empty : Entries
    entry : Text → Node → Entries → Entries

abbrev pub child_in : Text → Entries → Option Node
child_in name empty = none
child_in name (entry n node rest) = if text_eq n name then some node else child_in name rest

-- `path / name`
abbrev pub child : Text → Option Node → Option Node
child name (some (dir es)) = child_in name es
child name (some (link n)) = child name (some n)
child name (some (file b)) = none
child name none = none

-- `path.is_dir() and not path.is_symlink()`
abbrev pub is_plain_dir : Option Node → Bool
is_plain_dir (some (dir es)) = true
is_plain_dir _ = false

-- `path.is_file() and not path.is_symlink()`
abbrev pub is_plain_file : Option Node → Bool
is_plain_file (some (file b)) = true
is_plain_file _ = false

abbrev pub is_link : Option Node → Bool
is_link (some (link n)) = true
is_link _ = false

-- `path.is_file()`, with its bytes
abbrev pub bytes_of : Option Node → Option Text
bytes_of (some (file b)) = some b
bytes_of (some (link n)) = bytes_of (some n)
bytes_of (some (dir es)) = none
bytes_of none = none

-- `root.is_dir()`, with its entries
abbrev pub entries_of : Option Node → Option Entries
entries_of (some (dir es)) = some es
entries_of (some (link n)) = entries_of (some n)
entries_of (some (file b)) = none
entries_of none = none

-- `root.rglob("*")`: the files by their paths
unfoldable mutual
  pub walk : Text → Node → Result (List (Text × Text))
  walk path (file b) = ok ((path, b) ∷ [])
  walk path (dir es) = walk_all (path ++ b'/' ∷ []) es
  walk path (link n) = err "symlink forbidden in immutable publication tree"

  pub walk_all : Text → Entries → Result (List (Text × Text))
  walk_all prefix empty = ok []
  walk_all prefix (entry name n es) = do
    first ← walk (prefix ++ name) n
    rest ← walk_all prefix es
    ok (first ++ rest)

-- `sorted(files, key=...)`
unfoldable pub place : Text × Text → List (Text × Text) → List (Text × Text)
place (p, b) [] = (p, b) ∷ []
place (p, b) ((q, c) ∷ fs) = if text_lt q p then (q, c) ∷ place (p, b) fs else (p, b) ∷ (q, c) ∷ fs

unfoldable pub sorted : List (Text × Text) → List (Text × Text)
sorted [] = []
sorted (f ∷ fs) = place f (sorted fs)

-- `n.to_bytes(k, "big")`
abbrev big_endian : ℕ → ℕ → Text
big_endian zero n = []
big_endian (suc k) n = (n / 256 ^ k) % 256 ∷ big_endian k n

unfoldable pub to_bytes : ℕ → Result Text
to_bytes n = if leb (256 ^ 8) n then err "OverflowError" else ok (big_endian 8 n)

-- What the hash is updated with
unfoldable pub stream : List (Text × Text) → Result Text
stream [] = ok []
stream ((path, content) ∷ files) = do
  name_size ← to_bytes (length path)
  size ← to_bytes (length content)
  rest ← stream files
  ok (name_size ++ (path ++ (size ++ (content ++ rest))))

-- `directory_tree_digest`
unfoldable pub directory_tree_digest : (Text → Text) → Option Node → Result Text
directory_tree_digest sha256 root = elim (entries_of root) [
  | none ↦ err "publication tree missing"
  | some es ↦ do files ← walk_all [] es; bytes ← stream (sorted files); ok (sha256 bytes)
]

-- `shutil.copytree(source, target, symlinks=False)`: a link is copied as what it leads to.
unfoldable mutual
  pub copy : Node → Node
  copy (file b) = file b
  copy (dir es) = dir (copy_all es)
  copy (link n) = copy n

  pub copy_all : Entries → Entries
  copy_all empty = empty
  copy_all (entry name n es) = entry name (copy n) (copy_all es)

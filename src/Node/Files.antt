-- ===== src/Node/Files.antt =====
-- The file system of a node, as Python's `pathlib` and `os` act on it. Permissions are not modelled.
use rawfile_localpv.Prelude.{
  ℕ, ◌≡◌, refl, Bool, true, false, ◌&&◌, Option, none, some, List, [], ◌∷◌, String, arith,
  if◌then◌else◌,
}
use rawfile_localpv.Paths.{FilePath, root, child, parent, path_eq, path_eq_iff, path_eq_refl}
use rawfile_localpv.Json.{Json}

-- `blocks` counts the blocks of 512 bytes that are allocated, `st_blocks`; `content` names the data.
pub record File : Type 0 where
  pub size : ℕ
  pub blocks : ℕ
  pub content : String

-- `json_file` is a file that holds a JSON object; `special` is a device, a socket and the like.
pub data Node : Type 0 where
  dir : Node
  file : File → Node
  json_file : Json → Node
  link : FilePath → Node
  special : Node

abbrev pub Files : Type 0
Files = List (FilePath × Node)

unfoldable pub find : FilePath → Files → Option Node
find p [] = none
find p ((q, n) ∷ fs) = if path_eq q p then some n else find p fs

unfoldable pub put : FilePath → Node → Files → Files
put p n [] = (p, n) ∷ []
put p n ((q, o) ∷ fs) = if path_eq q p then (p, n) ∷ fs else (q, o) ∷ put p n fs

unfoldable pub drop_path : FilePath → Files → Files
drop_path p [] = []
drop_path p ((q, n) ∷ fs) = let rest = drop_path p fs in if path_eq q p then rest else (q, n) ∷ rest

-- `path.glob("*")`: the paths whose parent is `p`.
unfoldable pub children : FilePath → Files → List FilePath
children p [] = []
children p ((q, n) ∷ fs) =
    let rest = children p fs in if path_eq (parent q) p && is_child q then q ∷ rest else rest
  where
    is_child : FilePath → Bool
    is_child root = false
    is_child (child _ _) = true

pub find-put :
    (p q : FilePath) (n : Node) (fs : Files)
    → find q (put p n fs) ≡ (if path_eq p q then some n else find q fs)
unfolding find put
find-put p q n [] = refl
find-put p q n ((r, o) ∷ fs) =
    ground (arith, find-put p q n fs, path_eq_iff r p, path_eq_iff r q, path_eq_iff p q)

pub find-drop_path :
    (p q : FilePath) (fs : Files)
    → find q (drop_path p fs) ≡ (if path_eq p q then none else find q fs)
unfolding find drop_path
find-drop_path p q [] = ground arith
find-drop_path p q ((r, o) ∷ fs) =
    ground (arith, find-drop_path p q fs, path_eq_iff r p, path_eq_iff r q, path_eq_iff p q)

pub find-put_self : (p : FilePath) (n : Node) (fs : Files) → find p (put p n fs) ≡ some n
find-put_self p n fs = rw (find-put, path_eq_refl p)

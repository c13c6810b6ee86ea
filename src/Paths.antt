-- ===== src/Paths.antt =====
-- Absolute paths of the node's file system, as `pathlib.Path` is used by the program: a path is the
-- root or a child of a path. Names hold no separator.
use Prim.Native.String.{◌++◌ as text_append}
use text.Mathlib.Text.{starts_with}
use rawfile_localpv.Prelude.{
  Bool, true, false, ◌&&◌, String, ◌≡◌, ◌↔◌, subst, refl, arith, str_eq, eq_iff, eq_refl,
}

pub data FilePath : Type 0 where
  root : FilePath
  child : FilePath → String → FilePath

-- `path.as_posix()`
abbrev pub as_posix : FilePath → String
as_posix root = "/"
as_posix (child root n) = text_append "/" n
as_posix (child (child p m) n) = text_append (as_posix (child p m)) (text_append "/" n)

-- `path.parent`
abbrev pub parent : FilePath → FilePath
parent root = root
parent (child p n) = p

-- `path.name`
abbrev pub file_name : FilePath → String
file_name root = ""
file_name (child p n) = n

-- `Path(f"{path}{suffix}")`
abbrev pub with_suffix : FilePath → String → FilePath
with_suffix root s = child root s
with_suffix (child p n) s = child p (text_append n s)

-- `path.as_posix().startswith("/data")`: the name below the root starts with "data".
abbrev pub starts_with_data : FilePath → Bool
starts_with_data root = false
starts_with_data (child root n) = starts_with n "data"
starts_with_data (child (child p m) n) = starts_with_data (child p m)

abbrev pub path_eq : FilePath → FilePath → Bool
path_eq root root = true
path_eq (child p n) (child q m) = str_eq n m && path_eq p q
path_eq _ _ = false

pub path_eq_sound : (p q : FilePath) → path_eq p q ≡ true → p ≡ q
path_eq_sound root root e = refl
path_eq_sound (child p n) (child q m) e = ground (arith, path_eq_sound p q, eq_iff n m)
path_eq_sound root (child q m) e = cc
path_eq_sound (child p n) root e = cc

pub path_eq_refl : (p : FilePath) → path_eq p p ≡ true
path_eq_refl root = refl
path_eq_refl (child p n) = ground (arith, path_eq_refl p, eq_refl n)

pub path_eq_iff : (p q : FilePath) → (path_eq p q ≡ true) ↔ (p ≡ q)
path_eq_iff p q = (path_eq_sound p q, λ e. subst (λ x. path_eq p x ≡ true) e (path_eq_refl p))

pub child-is_not_parent : (p : FilePath) (n : String) → path_eq (child p n) p ≡ false
child-is_not_parent root n = refl
child-is_not_parent (child q m) n = ground (arith, child-is_not_parent q m)

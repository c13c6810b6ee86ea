-- ===== src/Node/Metadata.antt =====
-- rawfile/utils/rawfile.py and rawfile/utils/lock.py: the metadata of a volume, its lock and its image.
-- Permissions and the flushing of files to the disk are not modelled.
use rawfile_localpv.Prelude.{
  ℕ, Bool, true, false, Option, none, some, List, [], String, Dict, lookup, merge, if◌then◌else◌,
  ltb, not, str_eq,
}
use rawfile_localpv.Paths.{FilePath, as_posix, child, path_eq}
use rawfile_localpv.Json.{Value, null, bool, num, text, path, Json}
use rawfile_localpv.Errors.{
  Result, ok, err, file_not_found, blocking_io, key_error, type_error, is_a_directory, os_error,
  called_process, unknown_file_type,
}
use rawfile_localpv.Exec.{
  Exec, ◌>>=◌, ◌>>◌, pure, raise, gets, or_raise, lift, modify, raise_if, finally,
}
use rawfile_localpv.Node.Files.{File, Node, dir, file, link, special, put, drop_path}
use rawfile_localpv.Node.World.{
  StoragePool, World, with_files, node_at, is_dir, create, empty_file, touch, unlink, rmdir,
  write_json, replace, read_json,
}

-- `d[key]`, `d.get(key, default)` and the conversions of what they give.
abbrev pub get_item {ℓ} : {V : Type ℓ} → V → String → Dict V → V
get_item v k d = elim (lookup k d) [ none ↦ v | some x ↦ x ]

abbrev pub item : String → Json → Result Value
item k d = elim (lookup k d) [ none ↦ err (key_error k) | some v ↦ ok v ]

abbrev pub as_path : Value → Result FilePath
as_path (path p) = ok p
as_path _ = err type_error

abbrev pub as_num : Value → Result ℕ
as_num (num n) = ok n
as_num _ = err type_error

abbrev pub as_text : Value → Result String
as_text (text s) = ok s
as_text _ = err type_error

-- The value as a condition.
abbrev pub truthy : Value → Bool
truthy null = false
truthy (bool b) = b
truthy (num n) = ltb 0 n
truthy (text s) = not (str_eq s "")
truthy (path p) = true

-- `except FileNotFoundError: return a`
abbrev pub or_not_found : {A : Type 0} → Result A × World → A → Result A × World
or_not_found (err file_not_found, w) a = (ok a, w)
or_not_found r a = r

unfoldable pub meta_dir : String → World → FilePath
meta_dir volume_id w = child w.config.metadata_dir volume_id

unfoldable pub meta_file : String → World → FilePath
meta_file volume_id w = child (meta_dir volume_id w) "disk.meta"

unfoldable pub meta_file_tmp : String → World → FilePath
meta_file_tmp volume_id w = child (meta_dir volume_id w) "disk.meta.tmp"

unfoldable pub lock_file : String → World → FilePath
lock_file volume_id w = child (meta_dir volume_id w) "disk.lock"

unfoldable pub metadata : String → Exec World Json
metadata volume_id w = read_json (meta_file volume_id w) w

unfoldable pub metadata_or : String → Exec World Json
metadata_or volume_id w = or_not_found (metadata volume_id w) []

unfoldable pub img_file : String → Exec World FilePath
img_file volume_id =
    metadata volume_id >>= λ meta. lift (item "img_file" meta) >>= λ v. lift (as_path v)

unfoldable pub img_size : String → Exec World ℕ
img_size volume_id = metadata volume_id >>= λ meta. lift (item "size" meta) >>= λ v. lift (as_num v)

abbrev pub path_in : Option StoragePool → String → String → Result FilePath
path_in none storage_pool volume_id = err (key_error storage_pool)
path_in (some pool) storage_pool volume_id = ok (child pool.path volume_id)

unfoldable pub get_volume_path : String → String → Exec World FilePath
get_volume_path storage_pool volume_id w =
    (path_in (lookup storage_pool w.config.storage_pools) storage_pool volume_id, w)

-- `meta.get("storage_pool", config.csi_driver.default_pool)`
unfoldable pub pool_of : Json → Exec World String
pool_of meta w = (as_text (get_item (text w.config.default_pool) "storage_pool" meta), w)

unfoldable pub snapshots_dir : String → Bool → Exec World FilePath
snapshots_dir volume_id temporary = metadata volume_id >>= λ meta. pool_of meta >>= λ pool.
    get_volume_path pool volume_id >>= λ p.
    pure (if temporary then child (child p "snapshots") "temp" else child p "snapshots")

-- Permissions aside, the call looks up the volume's path, which fails for an unknown pool.
unfoldable pub update_permissions : String → String → Exec World Unit
update_permissions volume_id storage_pool = get_volume_path storage_pool volume_id >>= λ _. pure tt

unfoldable pub update_metadata : String → String → Json → Exec World Json
update_metadata volume_id storage_pool obj =
    update_permissions volume_id storage_pool
    >> (λ w. write_json (meta_file_tmp volume_id w) obj w)
    >> (λ w. replace (meta_file_tmp volume_id w) (meta_file volume_id w) w)
    >> pure obj

unfoldable pub patch_metadata : String → String → Json → Exec World Json
patch_metadata volume_id storage_pool obj = metadata_or volume_id >>= λ old_data.
    update_metadata volume_id storage_pool (merge old_data obj)

-- `open(img_file, "a+b")`: a missing file is made. Images are plain files.
abbrev open_append_at : Option Node → FilePath → Exec World File
open_append_at none p = create p empty_file >> pure (record { size = 0; blocks = 0; content = "" })
open_append_at (some (file f)) p = pure f
open_append_at (some dir) p = raise is_a_directory
open_append_at (some _) p = raise os_error

unfoldable pub open_append : FilePath → Exec World File
open_append p w = open_append_at (node_at p w) p w

abbrev set_file : FilePath → File → Exec World Unit
set_file p f = modify (λ w. with_files (put p (file f) w.files) w)

unfoldable pub truncate : FilePath → ℕ → Exec World Unit
truncate p size = open_append p >>= λ f. gets (λ w. w.host.blocks_after f size) >>= λ b.
    set_file p (record f { size = size; blocks = b })

unfoldable pub fallocate : FilePath → ℕ → Exec World Unit
fallocate p size = open_append p >>= λ f.
    gets (λ w. w.host.fallocate f size) >>= λ g. or_raise g os_error >>= set_file p

unfoldable pub attached_loops : FilePath → Exec World (List String)
attached_loops p = gets (λ w. w.host.losetup_j p)

abbrev pub be_absent_at : Option Node → FilePath → Exec World Unit
be_absent_at none p = pure tt
be_absent_at (some dir) p = rmdir p
be_absent_at (some special) p = raise (unknown_file_type (as_posix p))
be_absent_at (some _) p = unlink false p

unfoldable pub be_absent : FilePath → Exec World Unit
be_absent p w = be_absent_at (node_at p w) p w

abbrev is_link_to : FilePath → Option Node → Bool
is_link_to to (some (link q)) = path_eq q to
is_link_to to _ = false

-- `symlink_to` refuses a path that something stands at.
abbrev symlink_to : FilePath → FilePath → Exec World Unit
symlink_to to p = create p (link to)

unfoldable pub be_symlink : FilePath → FilePath → Exec World Unit
be_symlink p to w =
    if is_link_to to (node_at p w) then (ok tt, w) else (be_absent p >> symlink_to to p) w

abbrev pub leave_at : FilePath → Option Node → World → World
leave_at p none w = with_files (drop_path p w.files) w
leave_at p (some n) w = with_files (put p n w.files) w

-- `run(f"cp --sparse=auto --reflink={reflink} {source} {destination}")`
unfoldable pub cp : Bool → FilePath → FilePath → Exec World Unit
cp always source destination w =
    let r = w.host.cp always (node_at source w) (node_at destination w) in
    (if r.0 then ok tt else err called_process, leave_at destination r.1 w)

-- `open(path, "wb")` and a write of 16 bytes.
abbrev pub write_test : FilePath → Exec World Unit
write_test p w =
    if is_dir (node_at p w)
    then (err is_a_directory, w)
    else create p (file (record { size = 16; blocks = 0; content = "COW Support Test" })) w

abbrev pub succeeds : Result Unit × World → Result Bool × World
succeeds (ok _, w) = (ok true, w)
succeeds (err _, w) = (ok false, w)

unfoldable pub is_cow_supported : FilePath → FilePath → Exec World Bool
is_cow_supported source_dir destination_dir =
    let test_file = child source_dir ".cow_test_file" in
    let clone_file = child destination_dir ".cow_test_clone" in
    finally (λ w. succeeds ((write_test test_file >> cp true test_file clone_file) w))
      (be_absent test_file >> be_absent clone_file)

-- `VolLock(volume_id).__enter__()`; a lock that is held already is not waited for.
abbrev pub take_lock : String → Exec World Unit
take_lock volume_id =
    (λ w. touch (lock_file volume_id w) w) >> (λ w. raise_if (w.locked volume_id) blocking_io w)

abbrev pub free_lock : String → Exec World Unit
free_lock volume_id w = unlink true (lock_file volume_id w) w

-- `with VolLock(volume_id): m`
unfoldable pub with_vol_lock : {A : Type 0} → String → Exec World A → Exec World A
with_vol_lock volume_id m = take_lock volume_id >> finally m (free_lock volume_id)

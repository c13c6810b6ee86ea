-- ===== src/Volumes/Snapshots.antt =====
-- rawfile/utils/snapshot_manager.py: making, deleting and restoring snapshots, and the pages of their
-- list. The creation time of a snapshot is not modelled; the reading of the clock is.
use Prim.Native.String.{◌++◌}
use rawfile_localpv.Prelude.{
  ℕ, Bool, true, false, ◌&&◌, ◌||◌, not, Option, none, some, List, [], ◌∷◌, String, is_empty,
  lookup, if◌then◌else◌,
}
use rawfile_localpv.Paths.{FilePath, child, parent, with_suffix}
use rawfile_localpv.Json.{Value, null, bool, num, text, path, Json}
use rawfile_localpv.Errors.{
  ok, err, snapshot_create_volume_in_use, fs_freeze_not_supported_on_block_volumes, file_not_found,
}
use rawfile_localpv.Exec.{Exec, ◌>>=◌, ◌>>◌, pure, raise, gets, raise_if, finally}
use rawfile_localpv.Node.Files.{Node, file}
use rawfile_localpv.Node.World.{World, node_at, mkdir_parents, touch, unlink, time}
use rawfile_localpv.Node.Metadata.{
  get_item, truthy, metadata, img_file, snapshots_dir, attached_loops, cp, is_cow_supported,
  with_vol_lock,
}

pub record Snapshot : Type 0 where
  pub name : String
  pub volume_id : String
  pub size_bytes : ℕ
  pub snapshot_id : String
  pub ready : Bool
  pub temporary : Bool

pub record SnapshotList : Type 0 where
  pub snapshots : List Snapshot
  pub next_token : Option ℕ

abbrev pub snap_file_path : FilePath → String → FilePath
snap_file_path dir name = child dir (name ++ ".img")

abbrev pub creating : FilePath → FilePath
creating p = with_suffix p ".creating"

unfoldable pub get_snapshot_path : String → String → Bool → Exec World FilePath
get_snapshot_path volume_id name temporary =
    snapshots_dir volume_id temporary >>= λ d. pure (snap_file_path d name)

abbrev size_of_node : Option Node → Option ℕ
size_of_node (some (file f)) = some f.size
size_of_node _ = none

-- `path.stat().st_size`, of a plain file.
abbrev pub st_size : FilePath → Exec World ℕ
st_size p w = elim (size_of_node (node_at p w)) [
  | none ↦ (err file_not_found, w)
  | some n ↦ (ok n, w)
]

-- `fs_from_device(dev)` and `fs.freeze()` or `fs.unfreeze()`: the device needs a file system that the
-- driver knows. That a mounted file system is frozen changes no file.
unfoldable pub freeze_all : List String → Exec World Unit
freeze_all [] w = (ok tt, w)
freeze_all (dev ∷ devs) w =
    let rest = freeze_all devs w in
    if w.host.freezable dev then rest else (err fs_freeze_not_supported_on_block_volumes, w)

abbrev or_unlink : {A : Type 0} → FilePath → Exec World A → Exec World A
or_unlink p m w = elim (m w).0 [
  | ok a ↦ (ok a, (m w).1)
  | err e ↦ (unlink true p >> raise e) (m w).1
]

abbrev pub copy_snapshot :
    String → String → Bool → Bool → Bool → FilePath → FilePath → List String → Exec World Snapshot
copy_snapshot volume_id name copy_on_write freeze_fs temporary image snap_path loop_devs =
    finally
      (or_unlink snap_path (
        (if freeze_fs then freeze_all loop_devs else pure tt)
        >> cp copy_on_write image snap_path
        >> time
        >> unlink true (creating snap_path)
        >> st_size snap_path
        >>= λ size. pure (record {
          name = name;
          volume_id = volume_id;
          size_bytes = size;
          snapshot_id = volume_id ++ "/" ++ name;
          ready = true;
          temporary = temporary;
        })))
      (if freeze_fs then freeze_all loop_devs else pure tt)

unfoldable pub create_snapshot : String → String → Bool → Bool → Bool → Exec World Snapshot
create_snapshot volume_id name copy_on_write freeze_fs temporary = with_vol_lock volume_id (
    img_file volume_id >>= λ image. attached_loops image >>= λ loop_devs.
    get_snapshot_path volume_id name temporary >>= λ snap_path.
    mkdir_parents (parent snap_path)
    >> touch (creating snap_path)
    >> unlink true snap_path
    >> raise_if (not (is_empty loop_devs) && not (freeze_fs || copy_on_write))
        (snapshot_create_volume_in_use volume_id name)
    >> copy_snapshot volume_id name copy_on_write freeze_fs temporary image snap_path loop_devs)

unfoldable pub delete_snapshot : String → String → Bool → Exec World Unit
delete_snapshot volume_id name temporary = with_vol_lock volume_id (
    get_snapshot_path volume_id name temporary >>= λ snap_path.
    unlink true snap_path >> unlink true (creating snap_path))

-- Whether a copy of the volume shares its blocks: as its metadata say, or else as its pool does.
abbrev cow_support : Value → World → Bool
cow_support (text pool) w = elim (lookup pool w.cow_support_map) [ none ↦ false | some b ↦ b ]
cow_support _ w = false

unfoldable pub copy_on_write_of : Json → World → Bool
copy_on_write_of meta w = elim (get_item null "copy_on_write" meta) [
  | null ↦ cow_support (get_item null "storage_pool" meta) w
  | bool b ↦ b
  | num n ↦ truthy (num n)
  | text s ↦ truthy (text s)
  | path p ↦ true
]

unfoldable pub restore_snapshot : String → String → FilePath → Bool → Exec World Unit
restore_snapshot volume_id name destination temporary = metadata volume_id >>= λ meta.
    get_snapshot_path volume_id name temporary >>= λ snap_path.
    gets (copy_on_write_of meta) >>= λ wanted.
    (if wanted then is_cow_supported (parent snap_path) (parent destination) else pure false)
    >>= λ always. cp always snap_path destination

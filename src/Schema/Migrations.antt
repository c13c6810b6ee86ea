-- ===== src/Schema/Migrations.antt =====
-- rawfile/volume_schema.py: one migration per version, and their sequence. Times are numbers of
-- microseconds, and a path is kept as a path in the metadata.
use rawfile_localpv.Prelude.{
  ℕ, zero, suc, ◌+◌, ◌-◌, ◌*◌, Bool, true, false, String, insert, erase, contains, if◌then◌else◌,
  ltb, ◌==◌,
}
use rawfile_localpv.Paths.{FilePath, child, starts_with_data}
use rawfile_localpv.Json.{Value, null, bool, num, text, path, Json}
use rawfile_localpv.Errors.{Result, ok, err, type_error, attribute_error, schema_version_too_new}
use rawfile_localpv.Exec.{Exec, ◌>>=◌, ◌>>◌, pure, raise, lift}
use rawfile_localpv.Node.World.{World, exists, mkdir_parents}
use rawfile_localpv.Node.Metadata.{get_item, item, as_text, as_num, pool_of, get_volume_path}

abbrev pub latest_schema_version : ℕ
latest_schema_version = 8

abbrev pub set_version : ℕ → Json → Json
set_version n meta = insert "schema_version" (num n) meta

unfoldable pub migrate_0_to_1 : Json → Json
migrate_0_to_1 meta = set_version 1 meta

abbrev set_default : String → Value → Json → Json
set_default k v meta = if contains k meta then meta else insert k v meta

unfoldable pub migrate_1_to_2 : Json → Json
migrate_1_to_2 meta = set_default "fs_type" (text "ext4") (set_version 2 meta)

abbrev pub week : ℕ
week = 7 * 24 * 60 * 60 * 1000000

-- `None + 1` and the like raise; a missing key reads as `None`.
abbrev pub set_gc_at : Value → Json → Result Json
set_gc_at null meta = ok meta
set_gc_at (num t) meta = ok (insert "gc_at" (num (t + week)) meta)
set_gc_at _ meta = err type_error

unfoldable pub migrate_2_to_3 : Json → Result Json
migrate_2_to_3 meta = set_gc_at (get_item null "deleted_at" meta) (set_version 3 meta)

unfoldable pub migrate_3_to_4 : Json → Json
migrate_3_to_4 meta = insert "thin_provision" (bool true) (set_version 4 meta)

unfoldable pub migrate_4_to_5 : Json → Json
migrate_4_to_5 meta = insert "ready" (bool true) (set_version 5 meta)

unfoldable pub migrate_5_to_6 : Json → Exec World Json
migrate_5_to_6 meta w =
    (ok (insert "storage_pool" (text w.config.default_pool) (set_version 6 meta)), w)

unfoldable pub migrate_6_to_7 : Json → Json
migrate_6_to_7 meta = erase "reflink_attached" (set_version 7 meta)

abbrev pub is_in_data : Value → Bool
is_in_data (path p) = starts_with_data p
is_in_data _ = false

abbrev pub snapshot_folders : FilePath → Exec World Unit
snapshot_folders vol_path =
    mkdir_parents (child vol_path "snapshots")
    >> mkdir_parents (child (child vol_path "snapshots") "temp")

abbrev pub moved_img_file : FilePath → Json → Exec World Json
moved_img_file vol_path meta =
    snapshot_folders vol_path
    >> pure (
        insert "snapshots_dir" (path (child vol_path "snapshots"))
          (insert "img_file" (path (child vol_path "disk.img")) meta))

abbrev pub moved_if : FilePath → Json → Bool → Exec World Json
moved_if vol_path meta there = if there then moved_img_file vol_path meta else pure meta

-- The image has been moved: the metadata follow it, and the folders of its snapshots are made.
abbrev pub move_img_file : FilePath → Json → Exec World Json
move_img_file vol_path meta = exists (child vol_path "disk.img") >>= moved_if vol_path meta

abbrev pub vol_path_of : Json → Exec World FilePath
vol_path_of meta = pool_of meta >>= λ pool. lift (item "volume_id" meta) >>= λ v.
    lift (as_text v) >>= λ volume_id. get_volume_path pool volume_id

abbrev pub move_if_in_data : FilePath → Json → Exec World Json
move_if_in_data vol_path meta =
    if is_in_data (get_item null "img_file" meta) then move_img_file vol_path meta else pure meta

unfoldable pub migrate_7_to_8 : Json → Exec World Json
migrate_7_to_8 old =
    let meta = set_version 8 old in vol_path_of meta >>= λ vol_path. move_if_in_data vol_path meta

-- `getattr(module, f"migrate_{i}_to_{i + 1}")`; there is none from the latest version on.
unfoldable pub migrate_fn : ℕ → Json → Exec World Json
migrate_fn i meta =
    if i == 0
    then pure (migrate_0_to_1 meta)
    else if i == 1
    then pure (migrate_1_to_2 meta)
    else if i == 2
    then lift (migrate_2_to_3 meta)
    else if i == 3
    then pure (migrate_3_to_4 meta)
    else if i == 4
    then pure (migrate_4_to_5 meta)
    else if i == 5
    then migrate_5_to_6 meta
    else if i == 6
    then pure (migrate_6_to_7 meta)
    else if i == 7
    then migrate_7_to_8 meta
    else raise attribute_error

-- `for i in range(current, version): data = migrate_fn(data)`, for `n` rounds from `i` on.
unfoldable pub migrate_from : ℕ → ℕ → Json → Exec World Json
migrate_from zero i meta = pure meta
migrate_from (suc n) i meta = migrate_fn i meta >>= migrate_from n (suc i)

abbrev pub schema_version : Json → Result ℕ
schema_version meta = as_num (get_item (num 0) "schema_version" meta)

unfoldable pub migrate_to : Json → ℕ → Exec World Json
migrate_to meta version = lift (schema_version meta) >>= λ current.
    if ltb version current
    then raise (schema_version_too_new current version)
    else migrate_from (version - current) current meta

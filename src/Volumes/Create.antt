-- ===== src/Volumes/Create.antt =====
-- rawfile/utils/volume_manager.py: the creation of a volume.
use Prim.Native.String.{◌++◌}
use rawfile_localpv.Prelude.{
  ℕ, Bool, true, false, ◌&&◌, not, Option, none, some, List, [], ◌∷◌, String, max, if◌then◌else◌,
  leb, str_eq,
}
use rawfile_localpv.Paths.{FilePath, child}
use rawfile_localpv.Json.{Value, null, bool, num, text, path, Json}
use rawfile_localpv.Errors.{ok, source_type_required, volume_source_is_not_ready, value_error}
use rawfile_localpv.Exec.{Exec, ◌>>=◌, ◌>>◌, pure, gets, lift, or_raise, raise_if, finally}
use rawfile_localpv.Node.World.{World, mkdir, mkdir_parents, touch, exists, time}
use rawfile_localpv.Node.Metadata.{
  get_item, item, as_num, truthy, meta_dir, metadata, metadata_or, get_volume_path, patch_metadata,
  truncate, fallocate, with_vol_lock,
}
use rawfile_localpv.Schema.Migrations.{latest_schema_version}
use rawfile_localpv.Volumes.Snapshots.{
  Snapshot, st_size, create_snapshot, delete_snapshot, restore_snapshot, copy_on_write_of,
}
use rawfile_localpv.Volumes.Paging.{find_snapshot}
use rawfile_localpv.Volumes.Split.{rsplit_slash}

pub data VolumeSource : Type 0 where
  from_snapshot from_volume : VolumeSource

-- The arguments of `create_volume`.
pub record Request : Type 0 where
  pub volume_id : String
  pub size : ℕ
  pub storage_pool : String
  pub thin_provision : Bool
  pub freezefs : Option Bool
  pub copy_on_write : Option Bool
  pub source_type : Option VolumeSource
  pub source_id : Option String

abbrev is_set : String → Bool
is_set s = not (str_eq s "")

-- `source_id`, when it counts as true.
abbrev pub given_source : Option String → Option String
given_source none = none
given_source (some s) = if is_set s then some s else none

abbrev pub option_value : Option Bool → Value
option_value none = null
option_value (some b) = bool b

-- `source_meta.get("copy_on_write")`, or else what the map of the pools says.
abbrev clone_copy_on_write : Json → Exec World Bool
clone_copy_on_write meta w = elim (get_item null "copy_on_write" meta) [
  | null ↦ (lift (item "storage_pool" meta) >>= λ _. gets (copy_on_write_of meta)) w
  | bool b ↦ (ok b, w)
  | num n ↦ (ok (truthy (num n)), w)
  | text s ↦ (ok (truthy (text s)), w)
  | path p ↦ (ok true, w)
]

abbrev pub first_is_ready : List Snapshot → Bool
first_is_ready [] = false
first_is_ready (s ∷ _) = s.ready

abbrev clone_name : String → String
clone_name volume_id = volume_id ++ "-clone-source"

-- A temporary snapshot of the volume that is cloned, unless one is there.
unfoldable pub clone_source : String → String → Exec World Unit
clone_source volume_id source =
    let name = clone_name volume_id in
    metadata_or source >>= λ meta.
    raise_if (not (truthy (get_item (bool false) "ready" meta)))
      (volume_source_is_not_ready volume_id source name)
    >> find_snapshot source name true
    >>= λ found.
        if first_is_ready found.snapshots
        then pure tt
        else clone_copy_on_write meta >>= λ cow.
            create_snapshot source name cow (truthy (get_item (bool false) "freezefs" meta)) true
            >> pure tt

-- The volume and the name of the snapshot that the data come from.
unfoldable pub source_of : Request → Exec World (Option (String × String))
source_of r = elim (given_source r.source_id) [
  | none ↦ pure none
  | some id ↦ elim r.source_type [
    | none ↦ pure none
    | some s ↦ elim s [
      | from_snapshot ↦ or_raise (rsplit_slash id) value_error >>= λ p. pure (some p)
      | from_volume ↦ clone_source r.volume_id id >> pure (some (id, clone_name r.volume_id))
    ]
  ]
]

abbrev is_from_volume : Option VolumeSource → Bool
is_from_volume (some from_volume) = true
is_from_volume _ = false

-- The source's data are copied into the image. It gives the size and the provisioning to go on with.
unfoldable pub copy_source : Request → FilePath → String × String → Exec World (ℕ × Bool)
copy_source r img_file source =
    let temporary = is_from_volume r.source_type in
    find_snapshot source.0 source.1 temporary >>= λ found.
    raise_if (not (first_is_ready found.snapshots))
      (volume_source_is_not_ready r.volume_id source.0 source.1)
    >> metadata source.0
    >>= λ meta. lift (item "size" meta) >>= λ v. lift (as_num v) >>= λ source_size.
        restore_snapshot source.0 source.1 img_file temporary
        >> pure (max r.size source_size, truthy (get_item (bool false) "thin_provision" meta))

abbrev fill : Request → FilePath → Option (String × String) → Exec World (ℕ × Bool)
fill r img_file none = pure (r.size, r.thin_provision)
fill r img_file (some p) =
    if is_set p.1 && is_set p.0 then copy_source r img_file p else pure (r.size, r.thin_provision)

abbrev pub start_items : Request → Json
start_items r =
    ("schema_version", num latest_schema_version)
    ∷ ("storage_pool", text r.storage_pool)
    ∷ ("ready", bool false)
    ∷ []

abbrev pub volume_items : Request → FilePath → ℕ → Json
volume_items r d created_at =
    ("volume_id", text r.volume_id)
    ∷ ("created_at", num created_at)
    ∷ ("img_file", path (child d "disk.img"))
    ∷ ("snapshots_dir", path (child d "snapshots"))
    ∷ ("size", num r.size)
    ∷ ("thin_provision", bool r.thin_provision)
    ∷ ("freezefs", option_value r.freezefs)
    ∷ ("copy_on_write", option_value r.copy_on_write)
    ∷ ("storage_pool", text r.storage_pool)
    ∷ []

abbrev pub is_large_enough : ℕ → FilePath → Exec World Bool
is_large_enough size img_file = exists img_file >>= λ there.
    if there then (st_size img_file >>= λ n. pure (leb size n)) else pure false

-- What is done under the volume's lock when there is no image of the size yet.
unfoldable pub make_image : Request → FilePath → Option (String × String) → Exec World Unit
make_image r d source =
    let img_file = child d "disk.img" in
    mkdir_parents (child d "snapshots")
    >> mkdir_parents (child (child d "snapshots") "temp")
    >> time
    >>= λ created_at.
        patch_metadata r.volume_id r.storage_pool (volume_items r d created_at)
        >> touch img_file
        >> fill r img_file source
        >>= λ final.
            (if final.1 then truncate img_file final.0 else fallocate img_file final.0)
            >> patch_metadata r.volume_id r.storage_pool (("ready", bool true) ∷ [])
            >> pure tt

unfoldable pub locked_part : Request → FilePath → Option (String × String) → Exec World Unit
locked_part r d source = is_large_enough r.size (child d "disk.img") >>= λ done.
    if done then pure tt else make_image r d source

-- The temporary snapshot is deleted in any case.
unfoldable pub clean_up : Request → Exec World Unit
clean_up r = elim (given_source r.source_id) [
  | none ↦ pure tt
  | some id ↦
      if is_from_volume r.source_type
      then delete_snapshot id (clone_name r.volume_id) true
      else pure tt
]

abbrev lacks_type : Option String → Option VolumeSource → Bool
lacks_type (some _) none = true
lacks_type _ _ = false

unfoldable pub create_volume : Request → Exec World Unit
create_volume r =
    raise_if (lacks_type (given_source r.source_id) r.source_type)
      (source_type_required (elim r.source_id [ none ↦ "" | some s ↦ s ]))
    >> get_volume_path r.storage_pool r.volume_id
    >>= λ d.
        mkdir true d
        >> (λ w. mkdir_parents (meta_dir r.volume_id w) w)
        >> patch_metadata r.volume_id r.storage_pool (start_items r)
        >> finally (source_of r >>= λ source. with_vol_lock r.volume_id (locked_part r d source))
            (clean_up r)

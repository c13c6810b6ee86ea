-- ===== src/Csi/Stage.antt =====
-- rawfile/rawfile_servicer.py: the staging of a volume, and what the services say that they can do.
use rawfile_localpv.Prelude.{
  ℕ, ◌≤◌, ◌≡◌, ap, Bool, false, not, Option, none, some, List, [], ◌∷◌, ◌++◌, String, lookup, merge,
  if◌then◌else◌,
}
use rawfile_localpv.Paths.{FilePath, child}
use rawfile_localpv.Json.{Value, null, bool, num, text, Json}
use rawfile_localpv.Errors.{ok, err, volume_not_ready}
use rawfile_localpv.Exec.{Exec, ◌>>=◌, ◌>>◌, raise_if}
use rawfile_localpv.Node.Files.{File, dir, file}
use rawfile_localpv.Node.World.{World, Config, node_at}
use rawfile_localpv.Node.Metadata.{
  get_item, truthy, meta_dir, lock_file, metadata, metadata_or, img_file, get_volume_path,
  be_absent, be_symlink,
}
use rawfile_localpv.Volumes.Create.{
  VolumeSource, from_snapshot, from_volume, option_value, start_items, create_volume,
}
use rawfile_localpv.Volumes.Unready.{plain_request, without_lock, started, create_volume-unready}

pub data NodeCapability : Type 0 where
  stage_unstage_volume get_volume_stats expand_node_volume : NodeCapability

unfoldable pub node_get_capabilities : Config → List NodeCapability
node_get_capabilities c =
    stage_unstage_volume
    ∷ get_volume_stats
    ∷ (if c.resize_enabled then expand_node_volume ∷ [] else [])

pub data ControllerCapability : Type 0 where
  create_delete_volume get_capacity create_delete_snapshot list_snapshots : ControllerCapability
  clone_volume expand_volume : ControllerCapability

unfoldable pub controller_get_capabilities : Config → List ControllerCapability
controller_get_capabilities c =
    (create_delete_volume ∷ get_capacity ∷ [])
    ++ (if c.snapshots_enabled
        then create_delete_snapshot ∷ list_snapshots ∷ clone_volume ∷ []
        else [])
    ++ (if c.resize_enabled then expand_volume ∷ [] else [])

abbrev source_values : Option (VolumeSource × String) → List Value
source_values none = null ∷ null ∷ []
source_values (some (from_snapshot, id)) = num 1 ∷ text id ∷ []
source_values (some (from_volume, id)) = num 2 ∷ text id ∷ []

-- The arguments of the task that CreateVolume starts.
unfoldable pub creation_args :
    String → ℕ → String → Bool → Bool → Option Bool → Option (VolumeSource × String) → List Value
creation_args name size pool thin_provision freezefs copy_on_write source =
    text name
    ∷ num size
    ∷ text pool
    ∷ bool thin_provision
    ∷ bool freezefs
    ∷ option_value copy_on_write
    ∷ source_values source

-- `attach` and `detach` are `attach_loop` and `detach_loops`, over what their programs do to the state.
module _ (attach : FilePath → Exec World FilePath) (detach : FilePath → Exec World Unit) where
  unfoldable pub node_stage_volume : String → FilePath → Exec World Unit
  node_stage_volume v staging_path = metadata_or v >>= λ meta.
      raise_if (not (truthy (get_item (bool false) "ready" meta))) (volume_not_ready v)
      >> img_file v
      >>= λ image. attach image >>= λ loop_file. be_symlink (child staging_path "dev") loop_file

  unfoldable pub node_unstage_volume : String → FilePath → Exec World Unit
  node_unstage_volume v staging_path =
      img_file v >>= λ image. be_absent (child staging_path "dev") >> detach image

  stage-unready :
      (v : String) (staging_path : FilePath) (meta : Json) (w : World)
      → metadata v w ≡ (ok meta, w)
      → lookup "ready" meta ≡ some (bool false)
      → node_stage_volume v staging_path w ≡ (err (volume_not_ready v), w)
  unfolding node_stage_volume metadata_or
  stage-unready v staging_path meta w m r = rw m (
      ap
        (λ o.
          ((raise_if (not (truthy (value_of o))) (volume_not_ready v) >> img_file v) >>= λ image.
          attach image >>= λ loop_file. be_symlink (child staging_path "dev") loop_file)
            w)
        r)
    where
      value_of : Option Value → Value
      value_of o = elim o [ none ↦ bool false | some x ↦ x ]

  -- A request for a volume that is there, with an image that is large enough and a free lock, returns
  -- normally, and the staging of the volume after it is refused because the volume is not ready. This
  -- leaves the state as the request left it.
  pub stage-after_create :
      (v pool : String) (size : ℕ) (thin : Bool) (freezefs cow : Option Bool)
      (staging_path d : FilePath) (f : File) (old : Json) (w : World)
      → get_volume_path pool v w ≡ (ok d, w)
      → metadata_or v w ≡ (ok old, w)
      → node_at d w ≡ some dir
      → node_at (meta_dir v w) w ≡ some dir
      → node_at (lock_file v w) w ≡ none
      → node_at (child d "disk.img") w ≡ some (file f)
      → size ≤ f.size
      → w.locked v ≡ false
      → let r = plain_request v size pool thin freezefs cow in
        (create_volume r >> node_stage_volume v staging_path) w
        ≡ (err (volume_not_ready v), without_lock v (started r old w))
  stage-after_create v pool size thin freezefs cow staging_path d f old w e o k m n i g l =
      let u = create_volume-unready v pool size thin freezefs cow d f old w e o k m n i g l in
      let r = plain_request v size pool thin freezefs cow in
      rw u.0 (
        stage-unready v staging_path (merge old (start_items r)) (without_lock v (started r old w))
          u.1 u.2)

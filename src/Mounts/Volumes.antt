-- ===== src/Mounts/Volumes.antt =====
-- rawfile/bd2fs.py: the calls of the node service that mount and unmount the file system of a volume,
-- on top of those of rawfile/rawfile_servicer.py for its block device.
use Prim.Native.String.{◌++◌ as text_append}
use rawfile_localpv.Prelude.{
  Bool, false, true, not, none, List, [], ◌∷◌, String, if◌then◌else◌, str_eq,
}
use rawfile_localpv.Paths.{FilePath, child, as_posix}
use rawfile_localpv.Json.{bool}
use rawfile_localpv.Errors.{ok, aborted, not_found, volume_not_ready}
use rawfile_localpv.Exec.{Exec, ◌>>=◌, ◌>>◌, pure, raise, raise_if}
use rawfile_localpv.Node.World.{World, mkdir, mkdir_parents, touch, is_some, node_at}
use rawfile_localpv.Node.Metadata.{meta_file, metadata_or, get_item, truthy, be_absent}
use rawfile_localpv.Csi.Publish
use rawfile_localpv.Csi.Stage
use rawfile_localpv.Mounts.System.{
  System, Programs, on_node, with_vol_lock, get_device_for_mountpoint,
}
use rawfile_localpv.Mounts.FileSystems.{
  with_mountpoint, get_from_device_or_fallback, format_and_mount,
}
use rawfile_localpv.Mounts.Declarative
use rawfile_localpv.Mounts.Declarative.{suppress_not_found}

pub data AccessType : Type 0 where
  mount block : AccessType

-- The fields of a request to stage or publish that the calls read. `format_options` is the text of the
-- volume's context, split at spaces, and `fs_type` may be empty.
pub record VolumeRequest : Type 0 where
  pub volume_id : String
  pub staging_target_path : FilePath
  pub target_path : FilePath
  pub access_type : AccessType
  pub readonly : Bool
  pub mount_flags : List String
  pub fs_type : String
  pub format_options : List String

module _ {K : Type 0} (pr : Programs K) where
  -- `volume_deleted`
  unfoldable pub volume_deleted : String → System K → Bool
  volume_deleted v s = not (is_some (node_at (meta_file v s.node) s.node))

  abbrev still_mounted : String → FilePath → Exec (System K) Unit
  still_mounted v p = raise (
      aborted not_found (
        text_append "Volume " (
          text_append v
            (text_append " not found, but " (text_append (as_posix p) " is still mounted")))))

  unfoldable pub refuse_mounted : String → List FilePath → Exec (System K) Unit
  refuse_mounted v [] s = (ok tt, s)
  refuse_mounted v (p ∷ ps) s =
      let rest = refuse_mounted v ps s in
      if is_some (get_device_for_mountpoint pr p s) then still_mounted v p s else rest

  unfoldable pub clear_paths : List FilePath → Exec (System K) Unit
  clear_paths [] = pure tt
  clear_paths (p ∷ ps) = suppress_not_found (on_node (be_absent p)) >> clear_paths ps

  -- `clear_deleted_volume`
  unfoldable pub clear_deleted_volume :
      String → List FilePath → List FilePath → Exec (System K) Unit
  clear_deleted_volume v mountpoints paths = refuse_mounted v mountpoints >> clear_paths paths

  abbrev pub require_ready : String → Exec (System K) Unit
  require_ready v = on_node (metadata_or v) >>= λ meta.
      raise_if (not (truthy (get_item (bool false) "ready" meta))) (volume_not_ready v)

  abbrev pub make_target : AccessType → FilePath → Exec (System K) Unit
  make_target mount p = on_node (mkdir true p)
  make_target block p = on_node (touch p)

  -- `Bd2FsNodeServicer.NodePublishVolume`
  unfoldable pub node_publish_volume : VolumeRequest → Exec (System K) Unit
  node_publish_volume r = with_vol_lock r.volume_id (
      require_ready r.volume_id
      >> make_target r.access_type r.target_path
      >> Declarative.mount pr (child r.staging_target_path "device") r.target_path r.readonly
          r.mount_flags)

  -- `Bd2FsNodeServicer.NodeUnpublishVolume`
  unfoldable pub node_unpublish_volume : String → FilePath → Exec (System K) Unit
  node_unpublish_volume v target s =
      if volume_deleted v s
      then clear_deleted_volume v (target ∷ []) (target ∷ []) s
      else with_vol_lock v (Declarative.unmount pr target true) s

  -- `attach` and `detach` are those of the block device's services, and `tmp_dir` names a temporary folder.
  module _ (attach : FilePath → Exec World FilePath) (detach : FilePath → Exec World Unit)
      (tmp_dir : FilePath) (default_fs : String) where
    abbrev pub stage_fs : AccessType → VolumeRequest → Exec (System K) Unit
    stage_fs block r = pure tt
    stage_fs mount r =
        get_from_device_or_fallback pr (child r.staging_target_path "device")
          (if str_eq r.fs_type "" then default_fs else r.fs_type)
        >>= λ fs.
            format_and_mount pr tmp_dir none r.mount_flags r.format_options
              (with_mountpoint (child r.staging_target_path "mount") fs)
            >>= λ _. pure tt

    -- `Bd2FsNodeServicer.NodeStageVolume`
    unfoldable pub node_stage_volume : VolumeRequest → Exec (System K) Unit
    node_stage_volume r =
        let block_path = child r.staging_target_path "block" in
        with_vol_lock r.volume_id (
          require_ready r.volume_id
          >> on_node (mkdir_parents block_path)
          >> on_node (Stage.node_stage_volume attach detach r.volume_id block_path)
          >> on_node (Publish.node_publish_volume (child r.staging_target_path "device") block_path)
          >> stage_fs r.access_type r)

    -- `Bd2FsNodeServicer.NodeUnstageVolume`
    unfoldable pub node_unstage_volume : String → FilePath → Exec (System K) Unit
    node_unstage_volume v staging s =
        let mount_path = child staging "mount" in
        let device_path = child staging "device" in
        let block_path = child staging "block" in
        if volume_deleted v s
        then clear_deleted_volume v (mount_path ∷ device_path ∷ [])
            (mount_path ∷ device_path ∷ child block_path "dev" ∷ block_path ∷ []) s
        else with_vol_lock v
            (Declarative.unmount pr mount_path true
              >> on_node (Publish.node_unpublish_volume device_path)
              >> on_node (Stage.node_unstage_volume attach detach v block_path)
              >> on_node (be_absent block_path))
            s

-- ===== src/Csi/Expansion.antt =====
-- rawfile/rawfile_servicer.py and rawfile/bd2fs.py: the expansion of a volume, first of its image on its
-- node and then of its device and its file system.
use rawfile_localpv.Prelude.{ℕ, Bool, true, false, not, Option, none, some, String, Dict}
use rawfile_localpv.Paths.{FilePath, child, as_posix}
use rawfile_localpv.Errors.{Result, aborted, unimplemented, resource_exhausted, unknown_file_system}
use rawfile_localpv.Exec.{Exec, ◌>>=◌, ◌>>◌, pure, raise, raise_if, lift, gets}
use rawfile_localpv.Cluster.Pods.{get_node_ip}
use rawfile_localpv.Internal.Expand.{ExpandStatus, done, exhausted, ExpandResponse}
use rawfile_localpv.Mounts.System.{System, Programs, run, with_vol_lock, get_device_for_mountpoint}
use rawfile_localpv.Mounts.FileSystems.{FileSystem, from_device, with_mountpoint, resize}
use rawfile_localpv.Mounts.Volumes.{AccessType, mount, block}

pub record ExpandVolumeRequest : Type 0 where
  pub volume_id : String
  pub required_bytes : ℕ
  pub access_type : AccessType

pub record ControllerExpandResponse : Type 0 where
  pub capacity_bytes : ℕ
  pub node_expansion_required : Bool

abbrev pub is_exhausted : ExpandStatus → Bool
is_exhausted done = false
is_exhausted exhausted = true

-- Block volumes that are not staged need no expansion on the node.
abbrev pub needs_node : AccessType → ExpandResponse → Bool
needs_node mount response = true
needs_node block response = response.attached

-- `volume_to_node` asks the cluster, and `expand` is the call of ExpandRawFile on the node with an address.
module _ {S : Type 0} (resize_enabled : Bool) (mapping : Dict String)
    (volume_to_node : String → Exec S String)
    (expand : String → String → ℕ → Exec S ExpandResponse) where
  -- `ControllerExpandVolume`, of both services.
  unfoldable pub controller_expand_volume : ExpandVolumeRequest → Exec S ControllerExpandResponse
  controller_expand_volume r =
      raise_if (not resize_enabled) (aborted unimplemented "Resizing capabilities are disabled.")
      >> volume_to_node r.volume_id
      >>= λ node_name. lift (get_node_ip node_name mapping) >>= λ address.
          expand address r.volume_id r.required_bytes >>= λ response.
          raise_if (is_exhausted response.status)
            (aborted resource_exhausted "Not enough disk space")
          >> pure (record {
            capacity_bytes = r.required_bytes;
            node_expansion_required = needs_node r.access_type response;
          })

pub record NodeExpandRequest : Type 0 where
  pub volume_id : String
  pub volume_path : FilePath
  pub staging_target_path : FilePath
  pub required_bytes : ℕ
  pub access_type : AccessType

-- `losetup_c` is `losetup -c`, which makes a loop device take the size of its image.
module _ {K : Type 0} (pr : Programs K) (losetup_c : FilePath → K → Result Unit × K) where
  -- `RawFileNodeServicer.NodeExpandVolume`
  unfoldable pub expand_device : FilePath → Exec (System K) Unit
  expand_device volume_path =
      (λ s.
        raise_if (not s.node.config.resize_enabled)
          (aborted unimplemented "Resizing capabilities are disabled.") s)
      >> (λ s. run (losetup_c (pr.resolve volume_path s.node)) s)

  abbrev resize_found : Option FileSystem → FilePath → FilePath → Exec (System K) Unit
  resize_found none dev volume_path = raise (unknown_file_system (as_posix dev))
  resize_found (some fs) dev volume_path = resize pr (with_mountpoint volume_path fs)

  -- The device and the mount point of a path, which may be the staging path.
  abbrev locate : Option FilePath → FilePath → FilePath × FilePath
  locate none path = (child path "device", child path "mount")
  locate (some dev) path = (dev, path)

  abbrev expand_fs : FilePath × FilePath → Exec (System K) Unit
  expand_fs (dev, volume_path) =
      expand_device dev >> (λ s. resize_found (from_device pr dev s) dev volume_path s)

  abbrev expand_by : AccessType → NodeExpandRequest → Exec (System K) Unit
  expand_by block r = expand_device (child r.staging_target_path "device")
  expand_by mount r =
      gets (λ s. locate (get_device_for_mountpoint pr r.volume_path s) r.volume_path) >>= expand_fs

  -- `Bd2FsNodeServicer.NodeExpandVolume`
  unfoldable pub node_expand_volume : NodeExpandRequest → Exec (System K) ℕ
  node_expand_volume r =
      with_vol_lock r.volume_id (expand_by r.access_type r >> pure r.required_bytes)

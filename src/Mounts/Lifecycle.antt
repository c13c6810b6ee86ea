-- ===== src/Mounts/Lifecycle.antt =====
-- rawfile/declarative.py over rawfile/filesystem: the mounting and unmounting of one device at one folder.
use rawfile_localpv.Prelude.{◌≡◌, refl, Bool, true, false, none, some, List, String, is_empty}
use rawfile_localpv.Paths.{FilePath, as_posix, path_eq, path_eq_refl}
use rawfile_localpv.Errors.{ok, err, invalid_device_for_mountpoint}
use rawfile_localpv.Node.Files.{dir, drop_path, children, find-drop_path}
use rawfile_localpv.Node.World.{World, with_files, node_at, rmdir, mkdir}
use rawfile_localpv.Mounts.System.{
  FileSystemName, xfs, ext4, btrfs, System, Programs, get_device_for_mountpoint, rmdir_unmounted,
}
use rawfile_localpv.Mounts.FileSystems.{file_system, name_of, make, from_device}
use rawfile_localpv.Mounts.FileSystems
use rawfile_localpv.Mounts.Declarative.{mount, unmount}

module _ {K : Type 0} (pr : Programs K) where
  -- A device with a file system, and an empty folder, which is its own path, where nothing is mounted.
  pub record IsMountable (kind : FileSystemName) (device p : FilePath) (s : System K) : Type 0 where
    pub resolved : pr.resolve device s.node ≡ device
    pub known : pr.blkid device s.kernel ≡ some (file_system kind)
    pub block : pr.is_block_device device s.node s.kernel ≡ true
    pub folder : node_at p s.node ≡ some dir
    pub folder_path : pr.resolve p s.node ≡ p
    pub not_device : pr.is_block_device p s.node s.kernel ≡ false
    pub empty : is_empty (children p s.node.files) ≡ true
    pub unmounted : pr.findmnt p s.kernel ≡ none

  name_of-file_system : (kind : FileSystemName) → name_of (file_system kind) ≡ some kind
  name_of-file_system xfs = refl
  name_of-file_system ext4 = refl
  name_of-file_system btrfs = refl

  from_device-eq :
      (kind : FileSystemName) (device : FilePath) (s : System K)
      → pr.resolve device s.node ≡ device
      → pr.blkid device s.kernel ≡ some (file_system kind)
      → pr.is_block_device device s.node s.kernel ≡ true
      → from_device pr device s
        ≡ some (record { kind = kind; device = device; mountpoint = pr.target_of device s.kernel })
  unfolding from_device make
  from_device-eq kind device s r k b = rw k (rw (name_of-file_system kind) (rw b (rw r refl)))

  -- The device is mounted at the folder, and the device and the folder are as before.
  pub record IsMountedAt (kind : FileSystemName) (device p : FilePath) (w : World) (k : K)
      : Type 0 where
    pub source : pr.findmnt p k ≡ some device
    pub still_known : pr.blkid device k ≡ some (file_system kind)
    pub still_block : pr.is_block_device device w k ≡ true
    pub still_folder : pr.is_block_device p w k ≡ false

  -- The state after the folder is removed.
  abbrev pub cleared : FilePath → World → K → System K
  cleared p w k = record { node = with_files (drop_path p w.files) w; kernel = k }

  mount-eq :
      (kind : FileSystemName) (device p : FilePath) (s : System K) (k1 : K) (readonly : Bool)
      (options : List String)
      → IsMountable kind device p s
      → pr.mount kind options device p s.kernel ≡ (ok tt, k1)
      → mount pr device p readonly options s ≡ (ok tt, record s { kernel = k1 })
  unfolding mount FileSystems.mount get_device_for_mountpoint mkdir
  mount-eq kind device p s k1 readonly options m h = rw m.unmounted (
      rw m.resolved (
        rw m.folder_path (
          rw m.folder (
            rw (from_device-eq kind device s m.resolved m.known m.block)
              (rw m.unmounted (rw m.folder (rw h refl)))))))

  module _ (kind : FileSystemName) (device p : FilePath) (w : World) (k : K)
      (i : IsMountedAt kind device p w k) (r : pr.resolve device w ≡ device) where
    mount-again :
        (readonly : Bool) (options : List String)
        → let s : System K = record { node = w; kernel = k } in
          mount pr device p readonly options s ≡ (ok tt, s)
    unfolding mount get_device_for_mountpoint
    mount-again readonly options = rw i.source (rw r (rw r (rw (path_eq_refl device) refl)))

    unmount-eq :
        (k2 : K)
        → node_at p w ≡ some dir
        → pr.resolve p w ≡ p
        → is_empty (children p w.files) ≡ true
        → pr.umount p k ≡ (ok tt, k2)
        → pr.findmnt p k2 ≡ none
        → unmount pr p true (record { node = w; kernel = k }) ≡ (ok tt, cleared p w k2)
    unfolding unmount FileSystems.unmount get_device_for_mountpoint rmdir_unmounted rmdir
    unmount-eq k2 f fp e u n = rw fp (
        rw f (
          rw i.still_folder (
            rw i.source (
              rw r (
                rw
                  (from_device-eq kind device (record { node = w; kernel = k }) r i.still_known
                    i.still_block)
                  (rw i.source
                    (rw r (rw (path_eq_refl device) (rw u (rw n (rw f (rw e refl))))))))))))

  -- Let nothing be mounted at an empty folder, and let `mount` of the device's file system succeed there
  -- and then `umount`. The mounting returns normally with the device mounted, a second one changes
  -- nothing, and one of another device is refused. The unmounting returns normally with nothing mounted
  -- and the folder removed, and a second one changes nothing.
  pub mount_unmount :
      (kind : FileSystemName) (device p other : FilePath) (s : System K) (k1 k2 : K)
      (readonly : Bool) (options : List String)
      → IsMountable kind device p s
      → pr.mount kind options device p s.kernel ≡ (ok tt, k1)
      → IsMountedAt kind device p s.node k1
      → path_eq device (pr.resolve other s.node) ≡ false
      → pr.umount p k1 ≡ (ok tt, k2)
      → pr.findmnt p k2 ≡ none
      → pr.resolve p (cleared p s.node k2).node ≡ p
      → let s1 : System K = record s { kernel = k1 } in
        let s2 = cleared p s.node k2 in
        (mount pr device p readonly options s ≡ (ok tt, s1))
        × (get_device_for_mountpoint pr p s1 ≡ some device)
        × (mount pr device p readonly options s1 ≡ (ok tt, s1))
        × (mount pr other p readonly options s1
            ≡ (err (invalid_device_for_mountpoint (as_posix device) (as_posix p)), s1))
        × (unmount pr p true s1 ≡ (ok tt, s2))
        × (get_device_for_mountpoint pr p s2 ≡ none)
        × (node_at p s2.node ≡ none)
        × (unmount pr p true s2 ≡ (ok tt, s2))
  unfolding get_device_for_mountpoint mount unmount
  mount_unmount kind device p other s k1 k2 readonly options m h i o u n a =
      let absent : node_at p (cleared p s.node k2).node ≡ none =
        rw find-drop_path (rw (path_eq_refl p) refl) in
      (
        mount-eq kind device p s k1 readonly options m h,
        rw i.source (rw m.resolved refl),
        mount-again kind device p s.node k1 i m.resolved readonly options,
        rw i.source (rw m.resolved (rw m.resolved (rw o refl))),
        unmount-eq kind device p s.node k1 i m.resolved k2 m.folder m.folder_path m.empty u n,
        rw n refl,
        absent,
        rw a (rw absent refl),
      )

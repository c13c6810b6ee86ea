-- ===== src/Mounts/Refusal.antt =====
-- rawfile/filesystem/base.py, rawfile/declarative.py and rawfile/bd2fs.py: what is refused, and then left as
-- it is.
use rawfile_localpv.Prelude.{◌≡◌, refl, Bool, false, Option, some, List, String}
use rawfile_localpv.Paths.{FilePath, as_posix, path_eq}
use rawfile_localpv.Errors.{err, invalid_device_for_mountpoint}
use rawfile_localpv.Mounts.System.{
  FileSystemName, Program, System, Programs, get_device_for_mountpoint,
}
use rawfile_localpv.Mounts.FileSystems.{FileSystem, with_mountpoint, is_blank, format_and_mount}
use rawfile_localpv.Mounts.FileSystems
use rawfile_localpv.Mounts.Declarative

module _ {K : Type 0} (pr : Programs K) where
  -- Where a device is mounted that is not the one of the call, mounting and unmounting through a file
  -- system and the mounting that can be repeated fail, and leave files and mounts as they are.
  pub mount-refuses_other :
      (p current : FilePath) (s : System K)
      → get_device_for_mountpoint pr p s ≡ some current
      → (fs : FileSystem) (device : FilePath) (options : List String) (clear readonly : Bool)
      → path_eq current fs.device ≡ false
      → path_eq (pr.resolve current s.node) (pr.resolve device s.node) ≡ false
      → (FileSystems.mount pr (some p) options fs s
          ≡ (err (invalid_device_for_mountpoint (as_posix fs.device) (as_posix p)), s))
        × (FileSystems.unmount pr clear (with_mountpoint p fs) s
            ≡ (err (invalid_device_for_mountpoint (as_posix current) (as_posix p)), s))
        × (Declarative.mount pr device p readonly options s ≡ (
          err (invalid_device_for_mountpoint (as_posix (pr.resolve current s.node)) (as_posix p)),
          s,
        ))
  unfolding FileSystems.mount FileSystems.unmount Declarative.mount
  mount-refuses_other p current s e fs device options clear readonly f g =
      (rw e (rw f refl), rw e (rw f refl), rw e (rw g refl))

  -- A device on which a file system is found is never formatted: whatever the formatting programs
  -- would do, the outcome and the state are the same.
  pub format_and_mount-keeps_data :
      (mkfs : FileSystemName → List String → FilePath → Program K)
      (bootstrap : List String → FilePath → FilePath → Program K) (tmp_dir : FilePath)
      (p : Option FilePath) (mount_options format_options : List String) (fs : FileSystem)
      (s : System K)
      → is_blank (pr.blkid fs.device s.kernel) ≡ false
      → format_and_mount pr tmp_dir p mount_options format_options fs s
        ≡ format_and_mount
            (record pr { mkfs = mkfs; bootstrap = bootstrap })
            tmp_dir
            p
            mount_options
            format_options
            fs
            s
  unfolding format_and_mount FileSystems.mount get_device_for_mountpoint
  format_and_mount-keeps_data mkfs bootstrap tmp_dir p mount_options format_options fs s e =
      rw e refl

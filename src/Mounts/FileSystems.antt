-- ===== src/Mounts/FileSystems.antt =====
-- rawfile/filesystem: a file system on a device, its formatting, mounting, unmounting and growing. What
-- the programs print is not kept.
use rawfile_localpv.Prelude.{
  Bool, true, false, not, Option, none, some, List, String, str_eq, if◌then◌else◌,
}
use rawfile_localpv.Paths.{FilePath, as_posix, path_eq}
use rawfile_localpv.Errors.{
  Exception, Result, ok, err, file_system_operation, device_is_not_block, invalid_mountpoint,
  invalid_device_for_mountpoint, key_error,
}
use rawfile_localpv.Exec.{Exec, ◌>>=◌, ◌>>◌, pure, lift, raise_if, finally}
use rawfile_localpv.Node.World.{mkdir, is_some}
use rawfile_localpv.Mounts.System.{
  FileSystemName, xfs, ext4, btrfs, System, Programs, on_node, run, raising,
  get_device_for_mountpoint, rmdir_unmounted,
}

pub record FileSystem : Type 0 where
  pub kind : FileSystemName
  pub device : FilePath
  pub mountpoint : Option FilePath

-- `__filesystem__`
abbrev pub file_system : FileSystemName → String
file_system xfs = "xfs"
file_system ext4 = "ext4"
file_system btrfs = "btrfs"

-- `FileSystemName(s)`
abbrev pub name_of : String → Option FileSystemName
name_of s =
    if str_eq s "xfs"
    then some xfs
    else if str_eq s "ext4"
    then some ext4
    else if str_eq s "btrfs"
    then some btrfs
    else none

abbrev pub failed : String → FileSystem → Exception
failed operation fs = file_system_operation operation (file_system fs.kind)

abbrev pub with_mountpoint : FilePath → FileSystem → FileSystem
with_mountpoint p fs = record fs { mountpoint = some p }

abbrev pub mountpoint_or : Option FilePath → Option FilePath → Result FilePath
mountpoint_or (some p) q = ok p
mountpoint_or none (some q) = ok q
mountpoint_or none none = err invalid_mountpoint

-- `not get_device_fs(device)`
abbrev pub is_blank : Option String → Bool
is_blank none = true
is_blank (some t) = str_eq t ""

module _ {K : Type 0} (pr : Programs K) where
  -- The constructor of a `FileSystem`.
  unfoldable pub make : FileSystemName → FilePath → Option FilePath → System K → Result FileSystem
  make kind device mountpoint s =
      if pr.is_block_device device s.node s.kernel
      then ok (record { kind = kind; device = pr.resolve device s.node; mountpoint = mountpoint })
      else err (device_is_not_block (as_posix device))

  abbrev only_ok : Result FileSystem → Option FileSystem
  only_ok (ok fs) = some fs
  only_ok (err e) = none

  abbrev named : Option String → Option FileSystemName
  named none = none
  named (some s) = name_of s

  abbrev made : Option FileSystemName → FilePath → System K → Option FileSystem
  made none device s = none
  made (some kind) device s = only_ok (make kind device (pr.target_of device s.kernel) s)

  -- `from_device`
  unfoldable pub from_device : FilePath → System K → Option FileSystem
  from_device device s = made (named (pr.blkid device s.kernel)) device s

  abbrev fall_back : Option FileSystemName → String → FilePath → System K → Result FileSystem
  fall_back none fallback device s = err (key_error fallback)
  fall_back (some kind) fallback device s = make kind device (pr.target_of device s.kernel) s

  abbrev or_else : Option FileSystem → Result FileSystem → Result FileSystem
  or_else none r = r
  or_else (some fs) r = ok fs

  -- `get_from_device_or_fallback`
  unfoldable pub get_from_device_or_fallback : FilePath → String → Exec (System K) FileSystem
  get_from_device_or_fallback device fallback s =
      (or_else (from_device device s) (fall_back (name_of fallback) fallback device s), s)

  -- `BTRFS.format_fs`, with the name of the temporary folder.
  unfoldable pub format_btrfs : FilePath → List String → FileSystem → Exec (System K) Unit
  format_btrfs tmp_dir options fs =
      on_node (mkdir false tmp_dir)
      >> finally
          (finally (raising (failed "format" fs) (run (pr.bootstrap options fs.device tmp_dir)))
            (λ s.
              if is_some (get_device_for_mountpoint pr tmp_dir s)
              then run (pr.umount tmp_dir) s
              else (ok tt, s)))
          (rmdir_unmounted pr tmp_dir)

  abbrev format_as : FileSystemName → FilePath → List String → FileSystem → Exec (System K) Unit
  format_as btrfs tmp_dir options fs = format_btrfs tmp_dir options fs
  format_as kind tmp_dir options fs =
      raising (failed "format" fs) (run (pr.mkfs kind options fs.device))

  -- `format_fs`
  unfoldable pub format_fs : FilePath → List String → FileSystem → Exec (System K) Unit
  format_fs tmp_dir options fs = format_as fs.kind tmp_dir options fs

  abbrev mount_at : Option FilePath → FilePath → List String → FileSystem → Exec (System K) Unit
  mount_at none p options fs =
      raising (failed "mount" fs)
        (on_node (mkdir true p) >> run (pr.mount fs.kind options fs.device p))
  mount_at (some current) p options fs =
      raise_if (not (path_eq current fs.device))
        (invalid_device_for_mountpoint (as_posix fs.device) (as_posix p))

  -- `mount`; it gives the object, whose mount point it sets.
  unfoldable pub mount : Option FilePath → List String → FileSystem → Exec (System K) FileSystem
  mount mountpoint options fs = lift (mountpoint_or mountpoint fs.mountpoint) >>= λ p.
      (λ s. mount_at (get_device_for_mountpoint pr p s) p options fs s)
      >> pure (with_mountpoint p fs)

  abbrev unmount_at : Option FilePath → FilePath → Bool → FileSystem → Exec (System K) Unit
  unmount_at current p clear fs = raising (failed "unmount" fs) (
      (if is_some current then run (pr.umount p) else pure tt)
      >> (if clear then rmdir_unmounted pr p else pure tt))

  abbrev refuse_other : Option FilePath → FilePath → FileSystem → Exec (System K) Unit
  refuse_other none p fs = pure tt
  refuse_other (some current) p fs =
      raise_if (not (path_eq current fs.device))
        (invalid_device_for_mountpoint (as_posix current) (as_posix p))

  -- `unmount`
  unfoldable pub unmount : Bool → FileSystem → Exec (System K) Unit
  unmount clear_mountpoint fs = lift (mountpoint_or none fs.mountpoint) >>= λ p. λ s.
      let current = get_device_for_mountpoint pr p s in
      (refuse_other current p fs >> unmount_at current p clear_mountpoint fs) s

  -- `resize` of each kind
  abbrev grown_path : FileSystem → Option FilePath
  grown_path fs = elim fs.kind [
    | xfs ↦ fs.mountpoint
    | ext4 ↦ some fs.device
    | btrfs ↦ fs.mountpoint
  ]

  unfoldable pub resize : FileSystem → Exec (System K) Unit
  resize fs = raising (failed "resize" fs) (run (pr.grow fs.kind (grown_path fs)))

  -- `format_and_mount`
  unfoldable pub format_and_mount :
      FilePath
      → Option FilePath
      → List String
      → List String
      → FileSystem
      → Exec (System K) FileSystem
  format_and_mount tmp_dir mountpoint mount_options format_options fs =
      (λ s.
        if is_blank (pr.blkid fs.device s.kernel)
        then format_fs tmp_dir format_options fs s
        else (ok tt, s))
      >> mount mountpoint mount_options fs

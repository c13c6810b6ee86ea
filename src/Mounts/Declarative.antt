-- ===== src/Mounts/Declarative.antt =====
-- rawfile/declarative.py: the mounting and unmounting that can be repeated.
use rawfile_localpv.Prelude.{
  Bool, true, false, ◌||◌, not, Option, none, some, List, [], ◌∷◌, ◌++◌, String, if◌then◌else◌,
}
use rawfile_localpv.Paths.{FilePath, as_posix, path_eq}
use rawfile_localpv.Errors.{
  Exception, Result, ok, err, file_not_found, unknown_file_system, invalid_device_for_mountpoint,
}
use rawfile_localpv.Exec.{Exec, ◌>>=◌, ◌>>◌, pure, raise, raise_if}
use rawfile_localpv.Node.World.{unlink, is_some}
use rawfile_localpv.Mounts.System.{
  System, Programs, on_node, run, get_device_for_mountpoint, rmdir_unmounted, node_behind, is_file,
}
use rawfile_localpv.Mounts.FileSystems.{FileSystem, with_mountpoint, from_device}
use rawfile_localpv.Mounts.FileSystems

abbrev pub is_missing : Exception → Bool
is_missing file_not_found = true
is_missing _ = false

module _ {K : Type 0} where
  abbrev pub suppressing_not_found : Result Unit × System K → Result Unit × System K
  suppressing_not_found (ok _, s) = (ok tt, s)
  suppressing_not_found (err e, s) = if is_missing e then (ok tt, s) else (err e, s)

  -- `with suppress(FileNotFoundError): m`
  abbrev pub suppress_not_found : Exec (System K) Unit → Exec (System K) Unit
  suppress_not_found m s = suppressing_not_found (m s)

module _ {K : Type 0} (pr : Programs K) where
  abbrev mount_known : Option FileSystem → FilePath → FilePath → List String → Exec (System K) Unit
  mount_known none device p options = raise (unknown_file_system (as_posix device))
  mount_known (some fs) device p options =
      FileSystems.mount pr none options (with_mountpoint p fs) >>= λ _. pure tt

  abbrev bind_options : Bool → List String → List String
  bind_options readonly options = options ++ (if readonly then "bind" ∷ "ro" ∷ [] else "bind" ∷ [])

  abbrev mount_new : Bool → FilePath → FilePath → Bool → List String → Exec (System K) Unit
  mount_new true device p readonly options s =
      run (pr.bind (bind_options readonly options) device p) s
  mount_new false device p readonly options s =
      mount_known (from_device pr device s) device p options s

  abbrev mount_at :
      Option FilePath → FilePath → FilePath → Bool → List String → Exec (System K) Unit
  mount_at none device p readonly options s =
      mount_new (is_file (node_behind pr p s.node)) device p readonly options s
  mount_at (some current) device p readonly options s =
      let c = pr.resolve current s.node in
      raise_if (not (path_eq c device)) (invalid_device_for_mountpoint (as_posix c) (as_posix p)) s

  -- `mount`
  unfoldable pub mount : FilePath → FilePath → Bool → List String → Exec (System K) Unit
  mount device mountpoint readonly options s =
      mount_at (get_device_for_mountpoint pr mountpoint s) (pr.resolve device s.node) mountpoint
        readonly options s

  abbrev unmount_file : FilePath → Bool → Exec (System K) Unit
  unmount_file p clear = run (pr.umount p) >> (if clear then on_node (unlink true p) else pure tt)

  abbrev unmount_known : Option FileSystem → FilePath → FilePath → Bool → Exec (System K) Unit
  unmount_known none device p clear = raise (unknown_file_system (as_posix device))
  unmount_known (some fs) device p clear = FileSystems.unmount pr clear (with_mountpoint p fs)

  abbrev unmount_dir : Option FilePath → FilePath → Bool → Exec (System K) Unit
  unmount_dir none p clear s =
      (if clear then suppress_not_found (rmdir_unmounted pr p) else pure tt) s
  unmount_dir (some device) p clear s = unmount_known (from_device pr device s) device p clear s

  abbrev unmount_at : Bool → Bool → FilePath → Bool → Exec (System K) Unit
  unmount_at false _ p clear s = (ok tt, s)
  unmount_at true true p clear s = unmount_file p clear s
  unmount_at true false p clear s = unmount_dir (get_device_for_mountpoint pr p s) p clear s

  -- `unmount`
  unfoldable pub unmount : FilePath → Bool → Exec (System K) Unit
  unmount mountpoint clear_mountpoint s =
      unmount_at (is_some (node_behind pr mountpoint s.node))
        (is_file (node_behind pr mountpoint s.node)
          || pr.is_block_device mountpoint s.node s.kernel)
        mountpoint clear_mountpoint s

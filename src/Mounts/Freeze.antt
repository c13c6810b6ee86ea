-- ===== src/Mounts/Freeze.antt =====
-- rawfile/filesystem/base.py and rawfile/filesystem/xfs.py: the freezing of a mounted file system. A run
-- of fsfreeze or xfs_freeze succeeds, fails with what it prints, or is not possible at all.
use text.Mathlib.Text.{find?}
use rawfile_localpv.Prelude.{Bool, String, if◌then◌else◌}
use rawfile_localpv.Errors.{Exception, Result, ok, err, file_system_operation}
use rawfile_localpv.Node.World.{is_some}
use rawfile_localpv.Mounts.System.{FileSystemName, xfs, ext4, btrfs}
use rawfile_localpv.Mounts.FileSystems.{file_system}

pub data Outcome : Type 0 where
  success : Outcome
  failure : String → Outcome
  no_run : Exception → Outcome

-- `part in s`
abbrev pub occurs : String → String → Bool
occurs part s = is_some (find? s part)

abbrev pub operation_failed : String → FileSystemName → Result Unit
operation_failed operation kind = err (file_system_operation operation (file_system kind))

-- `freeze`; it is the same for each kind, but for the program.
unfoldable pub freeze : FileSystemName → Outcome → Result Unit
freeze kind success = ok tt
freeze kind (failure stderr) =
    if occurs "Device or resource busy" stderr then ok tt else operation_failed "freeze" kind
freeze kind (no_run e) = operation_failed "freeze" kind

-- `FileSystem.unfreeze`, of ext4 and btrfs.
unfoldable pub unfreeze_base : FileSystemName → Outcome → Result Unit
unfreeze_base kind success = ok tt
unfreeze_base kind (failure stderr) =
    if occurs "Invalid argument" stderr then ok tt else operation_failed "unfreeze" kind
unfreeze_base kind (no_run e) = operation_failed "unfreeze" kind

-- `XFS.unfreeze`
unfoldable pub unfreeze_xfs : Outcome → Result Unit
unfreeze_xfs success = ok tt
unfreeze_xfs (failure stderr) = ok tt
unfreeze_xfs (no_run e) = operation_failed "unfreeze" xfs

unfoldable pub unfreeze : FileSystemName → Outcome → Result Unit
unfreeze xfs o = unfreeze_xfs o
unfreeze ext4 o = unfreeze_base ext4 o
unfreeze btrfs o = unfreeze_base btrfs o

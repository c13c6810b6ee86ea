-- ===== src/Csi/Deletion.antt =====
-- rawfile/rawfile_servicer.py and rawfile/bd2fs.py: DeleteVolume, GetCapacity and DeleteSnapshot.
use rawfile_localpv.Prelude.{ℕ, false, String, not}
use rawfile_localpv.Errors.{
  Result, ok, err, aborted, failed_precondition, unimplemented, volume_in_use, value_error,
}
use rawfile_localpv.Exec.{Exec, ◌>>=◌, ◌>>◌, pure, or_raise, raise_if}
use rawfile_localpv.Node.World.{World}
use rawfile_localpv.Volumes.Snapshots.{delete_snapshot}
use rawfile_localpv.Volumes.Split.{rsplit_slash}
use rawfile_localpv.Volumes.Destroy.{delete_volume, gc_if_needed}

abbrev pub refuse_in_use : Result ℕ × World → Result Unit × World
refuse_in_use (ok size, w) = (ok tt, w)
refuse_in_use (err (volume_in_use v), w) = (err (aborted failed_precondition "Volume in use"), w)
refuse_in_use (err e, w) = (err e, w)

-- `DeleteVolume`
unfoldable pub delete_volume_call : String → Exec World Unit
delete_volume_call volume_id w = refuse_in_use (delete_volume volume_id w)

-- `DeleteSnapshot`
unfoldable pub delete_snapshot_call : String → Exec World Unit
delete_snapshot_call snapshot_id =
    (λ w.
      raise_if (not w.config.snapshots_enabled)
        (aborted unimplemented "Snapshotting capabilities are disabled.") w)
    >> or_raise (rsplit_slash snapshot_id) value_error
    >>= λ p. delete_snapshot p.0 p.1 false >> gc_if_needed p.0 false >> pure tt

-- ===== src/Mounts/Teardown.antt =====
-- rawfile/bd2fs.py: NodeUnpublishVolume and NodeUnstageVolume of a volume that has been deleted.
use rawfile_localpv.Prelude.{◌≡◌, true, String, List, [], ◌∷◌}
use rawfile_localpv.Paths.{FilePath, child}
use rawfile_localpv.Exec.{Exec}
use rawfile_localpv.Node.World.{World}
use rawfile_localpv.Mounts.System.{System, Programs}
use rawfile_localpv.Mounts.Volumes.{volume_deleted, node_unpublish_volume, node_unstage_volume}
use rawfile_localpv.Mounts.Clearing.{some_mounted, IsTornDown, clear_deleted_volume-IsTornDown}

-- The mount points and the paths that the staging of a volume makes in its folder.
abbrev pub staged_mounts : FilePath → List FilePath
staged_mounts staging = child staging "mount" ∷ child staging "device" ∷ []

abbrev pub staged_paths : FilePath → List FilePath
staged_paths staging =
    child staging "mount"
    ∷ child staging "device"
    ∷ child (child staging "block") "dev"
    ∷ child staging "block"
    ∷ []

module _ {K : Type 0} (pr : Programs K) where
  -- For a volume that has been deleted, NodeUnpublishVolume and NodeUnstageVolume are refused and change
  -- nothing while something is mounted at the target, or at one of the two mount points of the
  -- staging folder. Otherwise they leave the mounts alone and add no path, and when they return
  -- normally the target is gone, or all four paths of the staging folder.
  pub teardown-IsTornDown :
      (attach : FilePath → Exec World FilePath) (detach : FilePath → Exec World Unit)
      (tmp_dir : FilePath) (default_fs v : String) (target staging : FilePath) (s : System K)
      → volume_deleted pr v s ≡ true
      → IsTornDown pr
          (some_mounted pr (target ∷ []) s)
          (target ∷ [])
          s
          (node_unpublish_volume pr v target s)
        × IsTornDown pr
            (some_mounted pr (staged_mounts staging) s)
            (staged_paths staging)
            s
            (node_unstage_volume pr attach detach tmp_dir default_fs v staging s)
  unfolding node_unpublish_volume node_unstage_volume
  teardown-IsTornDown attach detach tmp_dir default_fs v target staging s e = (
    rw e (clear_deleted_volume-IsTornDown pr v (target ∷ []) (target ∷ []) s),
    rw e (clear_deleted_volume-IsTornDown pr v (staged_mounts staging) (staged_paths staging) s),
  )

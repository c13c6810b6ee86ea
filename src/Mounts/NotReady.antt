-- ===== src/Mounts/NotReady.antt =====
-- rawfile/bd2fs.py: a volume that is not ready is neither staged nor published.
use rawfile_localpv.Prelude.{◌≡◌, refl, ap, ◌∙◌, false, none, some, String}
use rawfile_localpv.Paths.{FilePath, child, path_eq}
use rawfile_localpv.Json.{bool, Json}
use rawfile_localpv.Errors.{Exception, ok, err, volume_not_ready}
use rawfile_localpv.Exec.{Exec, finally, >>=-eq_of_ok, proceed, finally-eq}
use rawfile_localpv.Node.Files.{dir, json_file}
use rawfile_localpv.Node.World.{World, node_at, mkdir_parents}
use rawfile_localpv.Node.Metadata.{
  meta_dir, meta_file, lock_file, metadata_or, get_item, truthy, take_lock, free_lock,
}
use rawfile_localpv.Volumes.Unready.{
  with_lock, without_lock, touch-eq, unlink-eq, find-with_lock, metadata-eq,
}
use rawfile_localpv.Csi.Publish
use rawfile_localpv.Csi.Stage
use rawfile_localpv.Mounts.System.{System, Programs, on_node, put_node, with_vol_lock}
use rawfile_localpv.Mounts.Declarative
use rawfile_localpv.Mounts.Volumes.{
  VolumeRequest, require_ready, make_target, stage_fs, node_publish_volume, node_stage_volume,
}

take_lock-eq :
    (v : String) (w : World)
    → node_at (lock_file v w) w ≡ none
    → node_at (meta_dir v w) w ≡ some dir
    → w.locked v ≡ false
    → take_lock v w ≡ (ok tt, with_lock v w)
unfolding lock_file meta_dir
take_lock-eq v w n d l = rw (touch-eq v w n d) (rw l refl)

meta_is_not_lock : (v : String) (w : World) → path_eq (lock_file v w) (meta_file v w) ≡ false
unfolding lock_file meta_file
meta_is_not_lock v w = refl

module _ {K : Type 0} where
  -- The system with the lock of a volume taken, and with it freed again.
  abbrev locked_system : String → System K → System K
  locked_system v s = record s { node = with_lock v s.node }

  abbrev pub freed_system : String → System K → System K
  freed_system v s = record s { node = without_lock v s.node }

  -- Under a free lock, what raises without a change raises with the lock freed.
  with_vol_lock-err :
      {A : Type 0} (v : String) (m : Exec (System K) A) (x : Exception) (s : System K)
      → node_at (lock_file v s.node) s.node ≡ none
      → node_at (meta_dir v s.node) s.node ≡ some dir
      → s.node.locked v ≡ false
      → m (locked_system v s) ≡ (err x, locked_system v s)
      → with_vol_lock v m s ≡ (err x, freed_system v s)
  unfolding with_vol_lock lock_file meta_dir
  with_vol_lock-err v m x s n d l e =
      >>=-eq_of_ok (on_node (take_lock v)) (λ _. finally m (on_node (free_lock v)))
        (ap (put_node s.kernel) (take_lock-eq v s.node n d l))
      ∙ finally-eq m (on_node (free_lock v)) e
          (ap (put_node s.kernel) (unlink-eq (lock_file v s.node) s.node.files s.node))

  require_ready-no :
      (pr : Programs K) (v : String) (meta : Json) (s : System K)
      → node_at (meta_file v s.node) s.node ≡ some (json_file meta)
      → truthy (get_item (bool false) "ready" meta) ≡ false
      → require_ready pr v s ≡ (err (volume_not_ready v), s)
  unfolding metadata_or
  require_ready-no pr v meta s e r = rw (metadata-eq v meta s.node e) (rw r refl)

  -- The same with more steps behind, and under the lock.
  unready-stops :
      (pr : Programs K) (v : String) (meta : Json) (s : System K)
      → node_at (lock_file v s.node) s.node ≡ none
      → node_at (meta_dir v s.node) s.node ≡ some dir
      → s.node.locked v ≡ false
      → node_at (meta_file v s.node) s.node ≡ some (json_file meta)
      → truthy (get_item (bool false) "ready" meta) ≡ false
      → (m : Exec (System K) Unit)
      → ((t : System K)
          → require_ready pr v t ≡ (err (volume_not_ready v), t)
          → m t ≡ (err (volume_not_ready v), t))
      → with_vol_lock v m s ≡ (err (volume_not_ready v), freed_system v s)
  unfolding meta_file meta_dir
  unready-stops pr v meta s n d l e r m h = with_vol_lock-err v m (volume_not_ready v) s n d l (
      h (locked_system v s) (
        require_ready-no pr v meta (locked_system v s)
          ((find-with_lock v s.node (meta_file v s.node) (meta_is_not_lock v s.node)).0 ∙ e) r))

  module _ (pr : Programs K) (attach : FilePath → Exec World FilePath)
      (detach : FilePath → Exec World Unit) (tmp_dir : FilePath) (default_fs : String) where
    -- A volume whose metadata do not say that it is ready, as while it is made or after it was deleted,
    -- is neither staged nor published: with its lock free, both calls raise that it is not ready.
    -- They run no program, attach no device and leave the kernel as it was, and of the files
    -- only the lock has been made and removed again.
    pub stage_publish-refuse_unready :
        (r : VolumeRequest) (meta : Json) (s : System K)
        → node_at (lock_file r.volume_id s.node) s.node ≡ none
        → node_at (meta_dir r.volume_id s.node) s.node ≡ some dir
        → s.node.locked r.volume_id ≡ false
        → node_at (meta_file r.volume_id s.node) s.node ≡ some (json_file meta)
        → truthy (get_item (bool false) "ready" meta) ≡ false
        → (node_stage_volume pr attach detach tmp_dir default_fs r s
            ≡ (err (volume_not_ready r.volume_id), freed_system r.volume_id s))
          × (node_publish_volume pr r s
              ≡ (err (volume_not_ready r.volume_id), freed_system r.volume_id s))
    unfolding node_stage_volume node_publish_volume
    stage_publish-refuse_unready r meta s n d l e f =
        let block_path = child r.staging_target_path "block" in
        let device = child r.staging_target_path "device" in
        let folders : Exec (System K) Unit = on_node (mkdir_parents block_path) in
        let stage : Exec (System K) Unit =
          on_node (Stage.node_stage_volume attach detach r.volume_id block_path) in
        let publish : Exec (System K) Unit =
          on_node (Publish.node_publish_volume device block_path) in
        let fs = stage_fs pr attach detach tmp_dir default_fs r.access_type r in
        let target = make_target pr r.access_type r.target_path in
        let bind = Declarative.mount pr device r.target_path r.readonly r.mount_flags in
        (
          unready-stops pr r.volume_id meta s n d l e f _ (λ t h.
              ap
                (λ x.
                  proceed (λ _. fs)
                    (proceed (λ _. publish) (proceed (λ _. stage) (proceed (λ _. folders) x))))
                h),
          unready-stops pr r.volume_id meta s n d l e f _
              (λ t h. ap (λ x. proceed (λ _. bind) (proceed (λ _. target) x)) h),
        )

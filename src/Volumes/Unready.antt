-- ===== src/Volumes/Unready.antt =====
-- rawfile/utils/volume_manager.py: a request for a volume that is there already.
use rawfile_localpv.Prelude.{
  ℕ, ◌≤◌, Bool, true, false, Option, none, some, List, String, merge, insert, lookup,
  lookup-insert_self, ◌≡◌, refl, ◌∙◌, le→leb,
}
use rawfile_localpv.Paths.{FilePath, child, path_eq, child-is_not_parent}
use rawfile_localpv.Json.{bool, num, text, Json}
use rawfile_localpv.Errors.{ok}
use rawfile_localpv.Exec.{Exec, ◌>>=◌, finally, finally-eq, >>=-eq_of_ok}
use rawfile_localpv.Node.Files.{
  Node, dir, file, json_file, File, find, put, drop_path, find-put, find-drop_path, find-put_self,
}
use rawfile_localpv.Node.World.{
  World, node_at, with_files, mkdir, mkdir_parents, touch, unlink, exists, empty_file, read_json,
}
use rawfile_localpv.Node.Metadata.{
  meta_dir, meta_file, meta_file_tmp, lock_file, metadata, metadata_or, get_volume_path,
  with_vol_lock, take_lock, free_lock,
}
use rawfile_localpv.Node.Patch.{with_metadata, patch_metadata-metadata}
use rawfile_localpv.Schema.Migrations.{latest_schema_version}
use rawfile_localpv.Volumes.Create.{
  Request, start_items, source_of, clean_up, locked_part, create_volume,
}

mkdir-eq : (p : FilePath) (w : World) → node_at p w ≡ some dir → mkdir true p w ≡ (ok tt, w)
unfolding mkdir
mkdir-eq p w h = rw h refl

mkdir_parents-eq :
    (p : FilePath) (n : String) (w : World)
    → node_at (child p n) w ≡ some dir
    → mkdir_parents (child p n) w ≡ (ok tt, w)
unfolding mkdir_parents
mkdir_parents-eq p n w h = rw h refl

-- The lock file is there, and gone again.
abbrev pub with_lock : String → World → World
with_lock v w = with_files (put (lock_file v w) empty_file w.files) w

abbrev pub without_lock : String → World → World
without_lock v w = with_files (drop_path (lock_file v w) (put (lock_file v w) empty_file w.files)) w

pub touch-eq :
    (v : String) (w : World)
    → node_at (lock_file v w) w ≡ none
    → node_at (meta_dir v w) w ≡ some dir
    → touch (lock_file v w) w ≡ (ok tt, with_lock v w)
unfolding touch lock_file
touch-eq v w n d = rw n (rw d refl)

pub unlink-eq :
    (p : FilePath) (fs : List (FilePath × Node)) (w : World)
    → unlink true p (with_files (put p empty_file fs) w)
      ≡ (ok tt, with_files (drop_path p (put p empty_file fs)) w)
unfolding unlink
unlink-eq p fs w = rw (find-put_self p empty_file fs) refl

with_vol_lock-eq :
    {A : Type 0} (v : String) (m : Exec World A) (a : A) (w : World)
    → node_at (lock_file v w) w ≡ none
    → node_at (meta_dir v w) w ≡ some dir
    → w.locked v ≡ false
    → m (with_lock v w) ≡ (ok a, with_lock v w)
    → with_vol_lock v m w ≡ (ok a, without_lock v w)
unfolding with_vol_lock lock_file meta_dir
with_vol_lock-eq v m a w n d l e =
    >>=-eq_of_ok (take_lock v) (λ _. finally m (free_lock v)) (rw (touch-eq v w n d) (rw l refl))
    ∙ finally-eq m (free_lock v) e (unlink-eq (lock_file v w) w.files w)

pub find-with_lock :
    (v : String) (w : World) (q : FilePath)
    → path_eq (lock_file v w) q ≡ false
    → (node_at q (with_lock v w) ≡ node_at q w) × (node_at q (without_lock v w) ≡ node_at q w)
find-with_lock v w q h = (rw find-put (rw h refl), rw (find-drop_path, find-put) (rw h refl))

pub metadata-eq :
    (v : String) (j : Json) (w : World)
    → node_at (meta_file v w) w ≡ some (json_file j)
    → metadata v w ≡ (ok j, w)
unfolding metadata read_json
metadata-eq v j w h = rw h refl

-- A request that names no source.
abbrev pub plain_request : String → ℕ → String → Bool → Option Bool → Option Bool → Request
plain_request v size pool thin freezefs cow = record {
  volume_id = v;
  size = size;
  storage_pool = pool;
  thin_provision = thin;
  freezefs = freezefs;
  copy_on_write = cow;
  source_type = none;
  source_id = none;
}

-- The state in which the request has marked the volume.
abbrev pub started : Request → Json → World → World
started r old w = with_metadata r.volume_id (merge old (start_items r)) w

module _ (v pool : String) (size : ℕ) (thin : Bool) (freezefs cow : Option Bool) where
  abbrev request : Request
  request = plain_request v size pool thin freezefs cow

  locked_part-done :
      (d : FilePath) (f : File) (w : World)
      → node_at (child d "disk.img") w ≡ some (file f)
      → size ≤ f.size
      → locked_part request d none w ≡ (ok tt, w)
  unfolding locked_part exists find
  locked_part-done d f w h g = rw h (rw h (rw (le→leb size f.size g) refl))

  image_is_not_lock :
      (d : FilePath) (w : World) → path_eq (lock_file v w) (child d "disk.img") ≡ false
  unfolding lock_file
  image_is_not_lock d w = refl

  -- What the request does once the metadata are written.
  last_part-eq :
      (d : FilePath) (f : File) (w : World)
      → node_at (child d "disk.img") w ≡ some (file f)
      → size ≤ f.size
      → node_at (lock_file v w) w ≡ none
      → node_at (meta_dir v w) w ≡ some dir
      → w.locked v ≡ false
      → finally
          (source_of request >>= λ source. with_vol_lock v (locked_part request d source))
          (clean_up request)
          w
        ≡ (ok tt, without_lock v w)
  unfolding source_of clean_up
  last_part-eq d f w i g n m l =
      finally-eq (source_of request >>= λ source. with_vol_lock v (locked_part request d source))
        (clean_up request) {s = w}
        (with_vol_lock-eq v (locked_part request d none) tt w n m l (
          locked_part-done d f (with_lock v w)
            ((find-with_lock v w (child d "disk.img") (image_is_not_lock d w)).0 ∙ i) g))
        refl

  meta_dir-eq :
      {w : World}
      → node_at (meta_dir v w) w ≡ some dir
      → mkdir_parents (meta_dir v w) w ≡ (ok tt, w)
  unfolding meta_dir
  meta_dir-eq {w} h = mkdir_parents-eq w.config.metadata_dir v w h

  module _ (d : FilePath) (f : File) (old : Json) (w : World)
      (e : get_volume_path pool v w ≡ (ok d, w)) (o : metadata_or v w ≡ (ok old, w))
      (k : node_at d w ≡ some dir) (m : node_at (meta_dir v w) w ≡ some dir)
      (n : node_at (lock_file v w) w ≡ none) (i : node_at (child d "disk.img") w ≡ some (file f))
      (g : size ≤ f.size) (l : w.locked v ≡ false) where
    kept :
        (q : FilePath)
        → path_eq (meta_file v w) q ≡ false
        → path_eq (meta_file_tmp v w) q ≡ false
        → node_at q (started request old w) ≡ node_at q w
    kept = (patch_metadata-metadata v pool (start_items request) old w e o m).3

    kept_image : node_at (child d "disk.img") (started request old w) ≡ some (file f)
    unfolding meta_file meta_file_tmp
    kept_image = kept (child d "disk.img") refl refl ∙ i

    kept_lock : node_at (lock_file v (started request old w)) (started request old w) ≡ none
    unfolding meta_file meta_file_tmp lock_file with_metadata meta_dir
    kept_lock = kept (lock_file v w) refl refl ∙ n

    kept_dir : node_at (meta_dir v (started request old w)) (started request old w) ≡ some dir
    unfolding meta_file meta_file_tmp with_metadata meta_dir
    kept_dir =
        kept (meta_dir v w) (child-is_not_parent (meta_dir v w) "disk.meta")
          (child-is_not_parent (meta_dir v w) "disk.meta.tmp")
        ∙ m

    kept_locks : (started request old w).locked v ≡ false
    unfolding with_metadata
    kept_locks = l

    create_volume-eq : create_volume request w ≡ (ok tt, without_lock v (started request old w))
    unfolding create_volume
    create_volume-eq =
        rw (e, mkdir-eq d w k)
          (rw (meta_dir-eq {w = w} m) (
            rw (patch_metadata-metadata v pool (start_items request) old w e o m).0 (
              last_part-eq d f (started request old w) kept_image g kept_lock kept_dir kept_locks)))

    metadata-after :
        metadata v (without_lock v (started request old w))
        ≡ (ok (merge old (start_items request)), without_lock v (started request old w))
    unfolding meta_file lock_file meta_dir with_metadata
    metadata-after =
        metadata-eq v (merge old (start_items request)) (without_lock v (started request old w)) (
          (find-with_lock v (started request old w) (meta_file v w) refl).1
          ∙ find-put_self (meta_file v w) _ _)

    -- A request without a source for a volume whose folders are there, with an image that is large
    -- enough already and a lock that is free, returns normally and leaves the volume marked as not
    -- ready: its metadata afterwards are the old ones with `"ready"` false, whatever that was before.
    pub create_volume-unready :
        (create_volume request w ≡ (ok tt, without_lock v (started request old w)))
        × (metadata v (without_lock v (started request old w))
            ≡ (ok (merge old (start_items request)), without_lock v (started request old w)))
        × (lookup "ready" (merge old (start_items request)) ≡ some (bool false))
    unfolding merge
    create_volume-unready = (
      create_volume-eq,
      metadata-after,
      lookup-insert_self "ready" (bool false) (
          insert "storage_pool" (text pool)
            (insert "schema_version" (num latest_schema_version) old)),
    )

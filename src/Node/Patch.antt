-- ===== src/Node/Patch.antt =====
-- What a write of a volume's metadata leaves behind.
use rawfile_localpv.Prelude.{◌≡◌, refl, arith, false, none, some, String, merge, if◌then◌else◌}
use rawfile_localpv.Paths.{FilePath, parent, path_eq, path_eq_iff, path_eq_refl}
use rawfile_localpv.Json.{Json}
use rawfile_localpv.Errors.{ok}
use rawfile_localpv.Node.Files.{
  Node, dir, json_file, put, drop_path, find-put, find-drop_path, find-put_self,
}
use rawfile_localpv.Node.World.{World, with_files, node_at, write_json, replace, read_json}
use rawfile_localpv.Node.Metadata.{
  meta_dir, meta_file, meta_file_tmp, metadata, metadata_or, get_volume_path, update_permissions,
  update_metadata, patch_metadata,
}

-- The state with `obj` as the metadata of the volume, and no temporary file.
unfoldable pub with_metadata : String → Json → World → World
with_metadata v obj w =
    with_files
      (put (meta_file v w) (json_file obj)
        (drop_path (meta_file_tmp v w) (put (meta_file_tmp v w) (json_file obj) w.files)))
      w

write_json-eq :
    (p : FilePath) (obj : Json) (w : World)
    → node_at (parent p) w ≡ some dir
    → write_json p obj w ≡ (ok tt, with_files (put p (json_file obj) w.files) w)
unfolding write_json
write_json-eq p obj w d = rw d

replace-eq :
    (p q : FilePath) (n : Node) (w : World)
    → node_at p w ≡ some n
    → replace p q w ≡ (ok tt, with_files (put q n (drop_path p w.files)) w)
unfolding replace
replace-eq p q n w e = rw e

pub update_metadata-eq :
    (v pool : String) (obj : Json) (w : World) {p : FilePath}
    → get_volume_path pool v w ≡ (ok p, w)
    → node_at (meta_dir v w) w ≡ some dir
    → update_metadata v pool obj w ≡ (ok obj, with_metadata v obj w)
unfolding update_metadata update_permissions with_metadata meta_file meta_file_tmp meta_dir
update_metadata-eq v pool obj w e d =
    let w' = with_files (put (meta_file_tmp v w) (json_file obj) w.files) w in
    rw e (
      rw (write_json-eq (meta_file_tmp v w) obj w d) (
        rw
          (replace-eq (meta_file_tmp v w) (meta_file v w) (json_file obj) w'
            (find-put_self (meta_file_tmp v w) (json_file obj) w.files))
          refl))

meta_file-is_not_tmp :
    (v : String) (w : World) → path_eq (meta_file v w) (meta_file_tmp v w) ≡ false
unfolding meta_file meta_file_tmp
meta_file-is_not_tmp v w = refl

-- What stands at a path after the write.
pub find-with_metadata :
    (v : String) (obj : Json) (w : World) (q : FilePath)
    → node_at q (with_metadata v obj w) ≡ (
        if path_eq (meta_file v w) q
        then some (json_file obj)
        else if path_eq (meta_file_tmp v w) q
        then none
        else node_at q w)
unfolding with_metadata
find-with_metadata v obj w q =
    rw (find-put, find-drop_path, find-put)
      (ground (arith, path_eq_iff (meta_file v w) q, path_eq_iff (meta_file_tmp v w) q))

pub metadata-with_metadata :
    (v : String) (obj : Json) (w : World)
    → metadata v (with_metadata v obj w) ≡ (ok obj, with_metadata v obj w)
unfolding metadata with_metadata read_json meta_file meta_dir
metadata-with_metadata v obj w = rw (find-put_self (meta_file v w) (json_file obj) _) refl

-- The update of a volume's metadata keeps what it does not name: on a volume whose metadata folder
-- is there, in a pool that is configured, `patch_metadata` succeeds, gives the old metadata with the
-- new items over them, and this is what `metadata` reads afterwards. At every path other than the
-- two metadata files there stands what stood before, and no temporary file is left.
pub patch_metadata-metadata :
    (v pool : String) (obj old : Json) (w : World) {p : FilePath}
    → get_volume_path pool v w ≡ (ok p, w)
    → metadata_or v w ≡ (ok old, w)
    → node_at (meta_dir v w) w ≡ some dir
    → let w' = with_metadata v (merge old obj) w in
      (patch_metadata v pool obj w ≡ (ok (merge old obj), w'))
      × (metadata v w' ≡ (ok (merge old obj), w'))
      × (node_at (meta_file_tmp v w) w' ≡ none)
      × ((q : FilePath)
          → path_eq (meta_file v w) q ≡ false
          → path_eq (meta_file_tmp v w) q ≡ false
          → node_at q w' ≡ node_at q w)
unfolding patch_metadata
patch_metadata-metadata v pool obj old w e m d = (
  rw m (update_metadata-eq v pool (merge old obj) w e d),
  metadata-with_metadata v (merge old obj) w,
  rw (find-with_metadata v (merge old obj) w (meta_file_tmp v w))
      (rw (meta_file-is_not_tmp v w, path_eq_refl (meta_file_tmp v w)) refl),
  λ q a b. rw (find-with_metadata v (merge old obj) w q) (rw (a, b) refl),
)

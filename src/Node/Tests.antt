-- ===== src/Node/Tests.antt =====
-- The theorem on the update of metadata at a concrete node.
use rawfile_localpv.Prelude.{◌≡◌, refl, [], ◌∷◌, merge, lookup, none, false}
use rawfile_localpv.Paths.{FilePath, root, child, path_eq}
use rawfile_localpv.Json.{num, Json}
use rawfile_localpv.Errors.{ok}
use rawfile_localpv.Node.Files.{dir, json_file, find}
use rawfile_localpv.Node.World.{World, node_at, read_json}
use rawfile_localpv.Node.Metadata.{
  meta_dir, meta_file, meta_file_tmp, metadata, metadata_or, get_volume_path, patch_metadata,
}
use rawfile_localpv.Exec.{Exec, pure, modify}
use rawfile_localpv.Node.Loops.{attach_loop, attempt, next_loop, attach_loop-Fruitless}
use rawfile_localpv.Prelude.{List, String, ltb, suc, inl, arith, if◌then◌else◌, ℕ, Bool, true}
use rawfile_localpv.Node.Patch.{with_metadata, patch_metadata-metadata}
use rawfile_localpv.Node.Examples.{empty_world}

abbrev old_metadata : Json
old_metadata = ("size", num 5) ∷ []

-- A volume that has been made.
abbrev volume_world : World
volume_world = record empty_world {
  files =
      (child root "meta", dir)
      ∷ (child (child root "meta") "v", dir)
      ∷ (child (child (child root "meta") "v") "disk.meta", json_file old_metadata)
      ∷ [];
}

abbrev new_items : Json
new_items = ("size", num 7) ∷ []

patch_metadata-metadata_example :
    let w' = with_metadata "v" (merge old_metadata new_items) volume_world in
    (patch_metadata "v" "default" new_items volume_world ≡ (ok (merge old_metadata new_items), w'))
    × (metadata "v" w' ≡ (ok (merge old_metadata new_items), w'))
    × (node_at (meta_file_tmp "v" volume_world) w' ≡ none)
    × ((q : FilePath)
        → path_eq (meta_file "v" volume_world) q ≡ false
        → path_eq (meta_file_tmp "v" volume_world) q ≡ false
        → node_at q w' ≡ node_at q volume_world)
unfolding meta_dir meta_file metadata_or metadata get_volume_path lookup read_json find
patch_metadata-metadata_example =
    patch_metadata-metadata "v" "default" new_items old_metadata volume_world refl refl refl

-- A kernel that keeps the number of loop devices of the file, and gives the first one its name.
abbrev devices : FilePath → Exec ℕ (List String)
devices p n = (ok (if ltb 0 n then "/dev/loop0" ∷ [] else []), n)

abbrev found : String → Exec ℕ Bool
found f = pure true

abbrev add_device : FilePath → Exec ℕ Unit
add_device p = modify (λ n. suc n)

abbrev nothing : String → Exec ℕ Unit
nothing s = pure tt

attach_loop-Fruitless_example :
    attach_loop devices nothing (pure "/dev/loop0") found nothing add_device nothing root 0
    ≡ (ok "/dev/loop0", 1)
unfolding attempt next_loop
attach_loop-Fruitless_example =
    attach_loop-Fruitless devices nothing (pure "/dev/loop0") found nothing add_device nothing 1
      root "/dev/loop0" 0 1 1 (1, inl refl, refl) refl (omega arith)

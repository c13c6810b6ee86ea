-- ===== src/Volumes/Tests.antt =====
-- The theorems on volumes, snapshots and capacities at a concrete node.
use rawfile_localpv.Prelude.{
  ℕ, ◌≤◌, ◌*◌, ◌≡◌, refl, [], ◌∷◌, merge, lookup, none, some, false, true, arith, ◌↔◌, ◌⊎◌, pos,
  ◌+ℤ◌, ◌≤ℤ◌,
}
use rawfile_localpv.Paths.{root, child}
use rawfile_localpv.Json.{num, bool, Json}
use rawfile_localpv.Errors.{ok}
use rawfile_localpv.Node.Files.{dir, file, json_file, find}
use rawfile_localpv.Node.World.{World, read_json}
use rawfile_localpv.Node.Metadata.{
  meta_dir, meta_file, lock_file, metadata, metadata_or, get_volume_path,
}
use rawfile_localpv.Node.Examples.{empty_world, pool_dir}
use rawfile_localpv.Volumes.Create.{create_volume, start_items}
use rawfile_localpv.Volumes.Capacity.{capacity_left, capacity_left-fits}
use rawfile_localpv.Volumes.Unready.{plain_request, without_lock, started, create_volume-unready}

abbrev old_metadata : Json
old_metadata = ("size", num 5) ∷ ("ready", bool true) ∷ []

-- A volume that has been made.
abbrev volume_world : World
volume_world = record empty_world {
  files =
      (child root "meta", dir)
      ∷ (child (child root "meta") "v", dir)
      ∷ (child (child (child root "meta") "v") "disk.meta", json_file old_metadata)
      ∷ (child pool_dir "v", dir)
      ∷ (
        child (child pool_dir "v") "disk.img",
        file (record { size = 5; blocks = 0; content = "" }),
      )
      ∷ [];
}

create_volume-unready_example :
    let w' =
      without_lock "v"
        (started (plain_request "v" 5 "default" true none none) old_metadata volume_world) in
    let r = plain_request "v" 5 "default" true none none in
    (create_volume r volume_world ≡ (ok tt, w'))
    × (metadata "v" w' ≡ (ok (merge old_metadata (start_items r)), w'))
    × (lookup "ready" (merge old_metadata (start_items r)) ≡ some (bool false))
unfolding meta_dir meta_file metadata_or metadata get_volume_path lookup read_json find lock_file
create_volume-unready_example =
    create_volume-unready "v" "default" 5 true none none (child pool_dir "v") _ old_metadata
      volume_world refl refl refl refl refl refl (omega arith) refl

capacity_left-fits_example : (300 ≤ capacity_left 10 (pos 400) 2 7) ↔ (
    (◌≡◌ {A = ℕ} 300 0)
    ⊎ ((300 ≤ 100 * 7) × (pos 300 +ℤ pos 400 +ℤ pos (100 * 2) ≤ℤ pos (100 * 10))))
capacity_left-fits_example = capacity_left-fits 300 10 (pos 400) 2 7

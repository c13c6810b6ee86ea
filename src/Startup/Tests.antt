-- ===== src/Startup/Tests.antt =====
-- The start of a node's driver at concrete states.
use package.text.Mathlib.Text.{starts_with}
use rawfile_localpv.Prelude.{ℕ, ◌≡◌, refl, Bool, true, false, ◌||◌, [], ◌∷◌, String, lookup}
use rawfile_localpv.Paths.{FilePath, root, child}
use rawfile_localpv.Json.{num, text}
use rawfile_localpv.Errors.{ok}
use rawfile_localpv.Node.Files.{dir, json_file, find}
use rawfile_localpv.Node.World.{World, StoragePool, byte_size, plain}
use rawfile_localpv.Node.Examples.{empty_world, pool_dir}
use rawfile_localpv.Startup.Latest.{IsLatest, Ends}
use rawfile_localpv.Startup.Moved.{has}
use rawfile_localpv.Startup.Checks.{IsDistinct, devices}
use rawfile_localpv.Startup.Preflight.{pool_paths, preflight}
use rawfile_localpv.Startup.Ready.{preflight-IsReady}
use rawfile_localpv.Startup.Preflight.{
  create_and_check_directory, check_devices, migrate_metadata_dir, move, migrate_tasks_file_path,
  set_cow_support,
}
use rawfile_localpv.Node.World.{
  exists, mkdir_parents, replace, read_json, rmdir, unlink, write_json,
}
use rawfile_localpv.Volumes.Destroy.{
  volumes_of, migrate_all_volume_schemas, list_all_volumes, migrate_metadata,
}
use rawfile_localpv.Node.Metadata.{
  meta_dir, metadata_or, be_absent, cp, get_volume_path, is_cow_supported, meta_file, meta_file_tmp,
  metadata, pool_of, update_metadata, update_permissions,
}
use rawfile_localpv.Node.Files.{put, drop_path, children}
use rawfile_localpv.Prelude.{erase, insert}
use rawfile_localpv.Schema.Migrations.{
  migrate_0_to_1, migrate_1_to_2, migrate_2_to_3, migrate_3_to_4, migrate_4_to_5, migrate_5_to_6,
  migrate_6_to_7, migrate_7_to_8, migrate_fn, migrate_from, migrate_to,
}

-- A volume of an older release, whose metadata stand in the pool.
abbrev old_world : World
old_world = record empty_world {
  files =
      (root, dir)
      ∷ (child root "meta", dir)
      ∷ (pool_dir, dir)
      ∷ (child pool_dir "v1", dir)
      ∷ (
        child (child pool_dir "v1") "disk.meta",
        json_file (("volume_id", text "v1") ∷ ("size", num 5) ∷ []),
      )
      ∷ [];
}

abbrev any_path : FilePath → World → Bool
any_path p w = true

abbrev one_device : FilePath → ℕ
one_device p = 7

abbrev pool : StoragePool
pool = record { path = pool_dir; reserved_capacity = byte_size 10; reserved_capacity_mode = plain }

preflight-IsReady_example :
    Ends
      (λ w'.
        IsDistinct (devices one_device (pool_paths old_world.config.storage_pools))
        × ((v : String)
            → (starts_with v "." ≡ false)
              × ((has old_world.config.metadata_dir v old_world || has pool.path v old_world)
                  ≡ true)
            → IsLatest v w'))
      (preflight any_path one_device old_world)
unfolding lookup
preflight-IsReady_example = preflight-IsReady any_path one_device old_world {p = pool} refl refl

returns : (preflight any_path one_device old_world).0 ≡ ok tt
unfolding preflight find lookup create_and_check_directory exists check_devices migrate_metadata_dir
    volumes_of mkdir_parents meta_dir move put replace drop_path migrate_all_volume_schemas
    list_all_volumes migrate_metadata metadata_or children be_absent cp get_volume_path
    is_cow_supported meta_file meta_file_tmp metadata pool_of update_metadata update_permissions
    read_json rmdir unlink write_json erase insert migrate_0_to_1 migrate_1_to_2 migrate_2_to_3
    migrate_3_to_4 migrate_4_to_5 migrate_5_to_6 migrate_6_to_7 migrate_7_to_8 migrate_fn
    migrate_from migrate_to migrate_tasks_file_path set_cow_support
returns = refl

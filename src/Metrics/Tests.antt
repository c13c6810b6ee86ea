-- ===== src/Metrics/Tests.antt =====
-- The theorems on the metrics at a concrete node: one pool with one volume.
use rawfile_localpv.Prelude.{ℕ, ◌-ℤ◌, ◌≡◌, refl, true, [], ◌∷◌, lookup}
use rawfile_localpv.Paths.{root, child}
use rawfile_localpv.Json.{text, path}
use rawfile_localpv.Errors.{Result, ok, err}
use rawfile_localpv.Node.Files.{dir, file, json_file, find}
use rawfile_localpv.Node.World.{World, StoragePool, byte_size, plain, read_json}
use rawfile_localpv.Node.Examples.{empty_world, pool_dir}
use rawfile_localpv.Node.Metadata.{
  metadata_or, metadata, meta_file, meta_dir, pool_of, img_file, attached_loops,
}
use rawfile_localpv.Volumes.Destroy.{
  get_all_volumes_stats, list_all_volumes, volumes_of, get_volume_stats, get_volumes_stats_by_pool,
}
use rawfile_localpv.Volumes.Capacity.{
  get_capacity, statvfs, capacity_left, reserved_capacity_handlers, plain_reserved_capacity_handler,
}
use rawfile_localpv.Metrics.Collector.{
  Metrics, pool_samples, sum_capacities, get_remaining_capacity, collect_pools, total_of, collect,
}
use rawfile_localpv.Metrics.Reading.{collect-IsReading}
use rawfile_localpv.Metrics.Totals.{sum_pools, IsConsistent, collect-IsConsistent}
use rawfile_localpv.Metrics.Unavailable.{is_error, collect-fails}

abbrev volume_world : World
volume_world = record empty_world {
  files =
      (child root "meta", dir)
      ∷ (pool_dir, dir)
      ∷ (child (child root "meta") "v", dir)
      ∷ (
        child (child (child root "meta") "v") "disk.meta",
        json_file (
            ("img_file", path (child (child pool_dir "v") "disk.img"))
            ∷ ("storage_pool", text "default")
            ∷ []),
      )
      ∷ (
        child (child pool_dir "v") "disk.img",
        file (record { size = 4096; blocks = 2; content = "" }),
      )
      ∷ [];
}

abbrev lost_world : World
lost_world = record empty_world { files = (child root "meta", dir) ∷ [] }

abbrev pool : StoragePool
pool = record { path = pool_dir; reserved_capacity = byte_size 10; reserved_capacity_mode = plain }

collect-IsReading_example : (collect volume_world).1 ≡ volume_world
collect-IsReading_example = collect-IsReading volume_world

collect-IsConsistent_example : IsConsistent volume_world.config.storage_pools (collect volume_world)
unfolding lookup find
collect-IsConsistent_example = collect-IsConsistent volume_world (refl, tt) ((dir, refl), tt)

collect-fails_example :
    (pool_samples [] "default" pool lost_world ≡ (ok [], lost_world))
    × (is_error (collect lost_world).0 ≡ true)
unfolding lookup find
collect-fails_example = collect-fails "default" pool lost_world refl refl refl []

abbrev counted : Result Metrics → ℕ
counted (ok m) = sum_pools (λ p. p.volume_count) m.pools
counted (err e) = 0

volume_counted : counted (collect volume_world).0 ≡ 1
unfolding collect get_all_volumes_stats list_all_volumes volumes_of get_volume_stats metadata_or
    metadata read_json find meta_file meta_dir pool_of lookup img_file attached_loops
    get_remaining_capacity sum_capacities collect_pools total_of ◌-ℤ◌ capacity_left get_capacity
    statvfs get_volumes_stats_by_pool reserved_capacity_handlers plain_reserved_capacity_handler
volume_counted = refl

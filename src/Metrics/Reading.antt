-- ===== src/Metrics/Reading.antt =====
-- rawfile/metrics.py, rawfile/utils/storage_pool.py and rawfile/utils/volume_manager.py: the calls that only
-- read.
use rawfile_localpv.Prelude.{
  ◌≡◌, refl, ◌∙◌, Bool, true, false, Option, none, some, List, [], ◌∷◌, ◌++◌, String, Dict, lookup,
  str_eq,
}
use rawfile_localpv.Paths.{FilePath}
use rawfile_localpv.Json.{bool}
use rawfile_localpv.Errors.{Result, ok, err, key_error}
use rawfile_localpv.Exec.{◌>>=◌, pure, gets}
use rawfile_localpv.Node.Files.{Node}
use rawfile_localpv.Node.World.{World, StoragePool, StatVfs, node_at}
use rawfile_localpv.Node.Metadata.{metadata_or, pool_of, img_file, attached_loops, get_item, truthy}
use rawfile_localpv.Node.Reading.{
  IsReading, bind-IsReading, or_raise-IsReading, metadata_or-IsReading, img_file-IsReading,
}
use rawfile_localpv.Volumes.Destroy.{
  VolumeStats, stats_at, list_all_volumes, get_volume_stats, none_if_missing, get_all_volumes_stats,
  get_volumes_stats_by_pool,
}
use rawfile_localpv.Volumes.Destroy
use rawfile_localpv.Volumes.Capacity.{
  get_capacity, statvfs, statvfs_at, capacity_in, configured_pool, pool_name,
}
use rawfile_localpv.Metrics.Collector.{
  storage_pools, volume_metrics, sum_capacities, get_remaining_capacity, unless_unavailable,
  pool_round, pool_samples, collect_pools, collect_rest, collect,
}

none_if_missing-state : (r : Result (Option VolumeStats) × World) → (none_if_missing r).1 ≡ r.1
none_if_missing-state (ok o, w) = refl
none_if_missing-state (err e, w) = refl

get_volume_stats-IsReading : (v : String) → IsReading (get_volume_stats v)
unfolding get_volume_stats pool_of attached_loops
get_volume_stats-IsReading v w =
    none_if_missing-state _
    ∙ bind-IsReading (metadata_or v) _ (metadata_or-IsReading v)
        (λ meta.
          bind-IsReading (pool_of meta) _ (λ w. refl)
            (λ pool. bind-IsReading (img_file v) _ (img_file-IsReading v) (λ image.
              bind-IsReading (attached_loops image)
                (λ loops. gets (
                  stats_at (node_at image w) loops pool
                    (truthy (get_item (bool false) "thin_provision" meta))))
                (λ w. refl) (λ loops w. refl))))
        w

collect-IsReading_of :
    (p : VolumeStats → Bool) (vs : List String) → IsReading (Destroy.collect p vs)
collect-IsReading_of p [] w = refl
collect-IsReading_of p (v ∷ vs) w =
    bind-IsReading (get_volume_stats v) _ (get_volume_stats-IsReading v)
      (λ s. bind-IsReading (Destroy.collect p vs) _ (collect-IsReading_of p vs) (λ d w. refl)) w

pub get_all_volumes_stats-IsReading : IsReading get_all_volumes_stats
unfolding get_all_volumes_stats list_all_volumes
get_all_volumes_stats-IsReading =
    bind-IsReading list_all_volumes (Destroy.collect (λ _. true)) (λ w. refl)
      (collect-IsReading_of (λ _. true))

get_volumes_stats_by_pool-IsReading : (pool : String) → IsReading (get_volumes_stats_by_pool pool)
unfolding get_volumes_stats_by_pool list_all_volumes
get_volumes_stats_by_pool-IsReading pool =
    bind-IsReading list_all_volumes (Destroy.collect (λ s. str_eq s.pool pool)) (λ w. refl)
      (collect-IsReading_of (λ s. str_eq s.pool pool))

statvfs_at-state : (o : Option Node) (p : FilePath) (w : World) → (statvfs_at o p w).1 ≡ w
statvfs_at-state none p w = refl
statvfs_at-state (some _) p w = refl

statvfs-IsReading : (p : FilePath) → IsReading (statvfs p)
unfolding statvfs
statvfs-IsReading p w = statvfs_at-state (node_at p w) p w

capacity_in-IsReading : (name : String) (pool : StoragePool) → IsReading (capacity_in name pool)
capacity_in-IsReading name pool w =
    bind-IsReading (statvfs pool.path) _ (statvfs-IsReading pool.path)
      (λ stats.
        bind-IsReading (get_volumes_stats_by_pool name) _ (get_volumes_stats_by_pool-IsReading name)
          (λ s w. refl))
      w

configured_pool-IsReading : (name : String) → IsReading (configured_pool name)
configured_pool-IsReading name w =
    or_raise-IsReading (lookup name w.config.storage_pools) (key_error name) w

pub get_capacity-IsReading : (pool : Option String) → IsReading (get_capacity pool)
unfolding get_capacity
get_capacity-IsReading pool w =
    bind-IsReading (gets (pool_name pool)) (λ name. configured_pool name >>= capacity_in name)
      (λ w. refl)
      (λ name.
        bind-IsReading (configured_pool name) (capacity_in name) (configured_pool-IsReading name)
          (capacity_in-IsReading name))
      w

pub sum_capacities-IsReading : (pools : Dict StoragePool) → IsReading (sum_capacities pools)
unfolding sum_capacities
sum_capacities-IsReading [] w = refl
sum_capacities-IsReading ((name, _) ∷ pools) w =
    bind-IsReading (get_capacity (some name)) _ (get_capacity-IsReading (some name))
      (λ c.
        bind-IsReading (sum_capacities pools) _ (sum_capacities-IsReading pools) (λ rest w. refl))
      w

unless_unavailable-state : {A : Type 0} → (r : Result A × World) → (unless_unavailable r).1 ≡ r.1
unless_unavailable-state (ok o, w) = refl
unless_unavailable-state (err e, w) = refl

pool_round-IsReading :
    (all : Dict VolumeStats) (name : String) (pool : StoragePool) (o : Option StatVfs)
    → IsReading (pool_round all name pool o)
pool_round-IsReading all name pool none w = refl
pool_round-IsReading all name pool (some stats) w =
    bind-IsReading (get_capacity (some name)) _ (get_capacity-IsReading (some name))
      (λ remaining w. refl) w

collect_pools-IsReading :
    (all : Dict VolumeStats) (pools : Dict StoragePool) → IsReading (collect_pools all pools)
unfolding collect_pools
collect_pools-IsReading all [] w = refl
collect_pools-IsReading all ((name, pool) ∷ pools) w =
    bind-IsReading (pool_samples all name pool)
      (λ here. collect_pools all pools >>= λ rest. pure (here ++ rest))
      (bind-IsReading (λ w. unless_unavailable (statvfs pool.path w)) (pool_round all name pool)
        (λ w. unless_unavailable-state (statvfs pool.path w) ∙ statvfs-IsReading pool.path w)
        (pool_round-IsReading all name pool))
      (λ here.
        bind-IsReading (collect_pools all pools) (λ rest. pure (here ++ rest))
          (collect_pools-IsReading all pools) (λ rest w. refl))
      w

pub get_remaining_capacity-IsReading : IsReading get_remaining_capacity
unfolding get_remaining_capacity
get_remaining_capacity-IsReading =
    bind-IsReading storage_pools sum_capacities (λ w. refl) sum_capacities-IsReading

-- The collection of the metrics leaves the node as it was, also when it raises.
pub collect-IsReading : IsReading collect
unfolding collect get_remaining_capacity
collect-IsReading w =
    bind-IsReading get_all_volumes_stats _ get_all_volumes_stats-IsReading
      (λ all.
        bind-IsReading get_remaining_capacity (collect_rest all) get_remaining_capacity-IsReading
          (λ remaining.
            bind-IsReading (storage_pools >>= collect_pools all)
              (λ pools. pure (record {
                remaining_capacity = remaining;
                volumes = volume_metrics all;
                pools = pools;
              }))
              (bind-IsReading storage_pools (collect_pools all) (λ w. refl)
                (collect_pools-IsReading all))
              (λ pools w. refl)))
      w

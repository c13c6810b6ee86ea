-- ===== src/Metrics/Collector.antt =====
-- rawfile/metrics.py: the families of metrics that `VolumeStatsCollector.collect` gives, each sample with
-- its labels but for the node's name. Capacities are hundredths of a byte.
use rawfile_localpv.Prelude.{
  ℕ, ◌+◌, ◌*◌, Bool, true, false, Option, none, some, List, [], ◌∷◌, ◌++◌, String, Dict,
  if◌then◌else◌, str_eq, ℤ, pos, ◌-ℤ◌,
}
use rawfile_localpv.Errors.{Exception, Result, ok, err, file_not_found, os_error}
use rawfile_localpv.Exec.{Exec, ◌>>=◌, pure, gets}
use rawfile_localpv.Node.World.{World, StoragePool, ReservedCapacityMode, StatVfs}
use rawfile_localpv.Volumes.Destroy.{VolumeStats, get_all_volumes_stats, fs_usage}
use rawfile_localpv.Volumes.Capacity.{get_capacity, statvfs, reserved_capacity_handlers}

pub record VolumeMetrics : Type 0 where
  pub volume : String
  pub used : ℕ
  pub total : ℕ
  pub physical : ℕ
  pub pool : String
  pub sparse : Bool
  pub thin_provision : Bool

pub record PoolMetrics : Type 0 where
  pub pool : String
  pub capacity : ℤ
  pub backing_fs_capacity : ℕ
  pub backing_fs_available : ℕ
  pub backing_fs_usage : ℕ
  pub reserved : ℤ
  pub remaining : ℕ
  pub mode : ReservedCapacityMode
  pub default_pool : Bool
  pub volumes_physical : ℕ
  pub volumes_logical : ℕ
  pub volume_count : ℕ

pub record Metrics : Type 0 where
  pub remaining_capacity : ℕ
  pub volumes : List VolumeMetrics
  pub pools : List PoolMetrics

unfoldable pub sum_capacities : Dict StoragePool → Exec World ℕ
sum_capacities [] = pure 0
sum_capacities ((name, _) ∷ pools) =
    get_capacity (some name) >>= λ c. sum_capacities pools >>= λ rest. pure (c + rest)

abbrev pub storage_pools : Exec World (Dict StoragePool)
storage_pools = gets (λ w. w.config.storage_pools)

-- `get_remaining_capacity`
unfoldable pub get_remaining_capacity : Exec World ℕ
get_remaining_capacity = storage_pools >>= sum_capacities

abbrev pub volume_sample : String → VolumeStats → VolumeMetrics
volume_sample v s = record {
  volume = v;
  used = s.used;
  total = s.logical_size;
  physical = s.physical_size;
  pool = s.pool;
  sparse = s.sparse;
  thin_provision = s.thin_provision;
}

abbrev pub volume_metrics : Dict VolumeStats → List VolumeMetrics
volume_metrics [] = []
volume_metrics ((v, s) ∷ d) = volume_sample v s ∷ volume_metrics d

-- The sum of a figure over the volumes of a pool.
unfoldable pub total_of : (VolumeStats → ℕ) → String → Dict VolumeStats → ℕ
total_of f pool [] = 0
total_of f pool ((_, s) ∷ d) =
    let rest = total_of f pool d in if str_eq s.pool pool then f s + rest else rest

abbrev pub one : VolumeStats → ℕ
one s = 1

abbrev pub pool_metrics :
    Dict VolumeStats → String → StoragePool → StatVfs → String → ℕ → PoolMetrics
pool_metrics all name pool stats default_pool remaining =
    let fs_size = stats.f_frsize * stats.f_blocks in
    let reserved =
      reserved_capacity_handlers pool.reserved_capacity_mode fs_size pool.reserved_capacity in
    record {
      pool = name;
      capacity = pos (100 * fs_size) -ℤ reserved;
      backing_fs_capacity = fs_size;
      backing_fs_available = stats.f_frsize * stats.f_bavail;
      backing_fs_usage = fs_usage stats;
      reserved = reserved;
      remaining = remaining;
      mode = pool.reserved_capacity_mode;
      default_pool = str_eq name default_pool;
      volumes_physical = total_of (λ s. s.physical_size) name all;
      volumes_logical = total_of (λ s. s.logical_size) name all;
      volume_count = total_of one name all;
    }

abbrev is_unavailable : Exception → Bool
is_unavailable file_not_found = true
is_unavailable os_error = true
is_unavailable _ = false

-- `except (FileNotFoundError, OSError): continue`
abbrev pub unless_unavailable : {A : Type 0} → Result A × World → Result (Option A) × World
unless_unavailable (ok a, w) = (ok (some a), w)
unless_unavailable (err e, w) = (if is_unavailable e then ok none else err e, w)

-- What one round of the loop over the pools adds.
abbrev pub pool_round :
    Dict VolumeStats → String → StoragePool → Option StatVfs → Exec World (List PoolMetrics)
pool_round all name pool none = pure []
pool_round all name pool (some stats) = get_capacity (some name) >>= λ remaining.
    gets (λ w. pool_metrics all name pool stats w.config.default_pool remaining ∷ [])

abbrev pub pool_samples : Dict VolumeStats → String → StoragePool → Exec World (List PoolMetrics)
pool_samples all name pool =
    (λ w. unless_unavailable (statvfs pool.path w)) >>= pool_round all name pool

unfoldable pub collect_pools : Dict VolumeStats → Dict StoragePool → Exec World (List PoolMetrics)
collect_pools all [] = pure []
collect_pools all ((name, pool) ∷ pools) =
    pool_samples all name pool >>= λ here. collect_pools all pools >>= λ rest. pure (here ++ rest)

abbrev pub collect_rest : Dict VolumeStats → ℕ → Exec World Metrics
collect_rest all remaining = (storage_pools >>= collect_pools all) >>= λ pools.
    pure (record { remaining_capacity = remaining; volumes = volume_metrics all; pools = pools })

-- `VolumeStatsCollector.collect`
unfoldable pub collect : Exec World Metrics
collect = get_all_volumes_stats >>= λ all. get_remaining_capacity >>= collect_rest all

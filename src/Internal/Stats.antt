-- ===== src/Internal/Stats.antt =====
-- rawfile/internal_svc.py: what the node tells of its pools, its volumes and its tasks.
use rawfile_localpv.Prelude.{
  ℕ, Bool, true, false, ◌&&◌, not, Option, none, some, List, [], ◌∷◌, ◌++◌, map, String, Dict,
  lookup, is_empty, if◌then◌else◌, str_eq, ℤ,
}
use rawfile_localpv.Paths.{FilePath}
use rawfile_localpv.Json.{Value, null, bool, text, Json}
use rawfile_localpv.Exec.{Exec, ◌>>=◌, pure, gets, lift}
use rawfile_localpv.Node.World.{World, StoragePool, ReservedCapacity, ReservedCapacityMode}
use rawfile_localpv.Node.Metadata.{get_item, item, metadata_or}
use rawfile_localpv.Volumes.Destroy.{VolumeStats, get_volume_stats, list_all_volumes}
use rawfile_localpv.Volumes.Snapshots.{copy_on_write_of}
use rawfile_localpv.Volumes.Capacity.{get_capacity}
use rawfile_localpv.Tasks.Defs.{TaskManager, TaskInfo, TaskName, TaskState, get_tasks}

pub record PoolStat : Type 0 where
  pub reserved_capacity : ReservedCapacity
  pub path : FilePath
  pub reserved_capacity_mode : ReservedCapacityMode
  pub capacity : ℕ
  pub copy_on_write_supported : Bool

abbrev or_false : Option Bool → Bool
or_false none = false
or_false (some b) = b

abbrev pub pool_stat : String → StoragePool → Exec World PoolStat
pool_stat name pool = get_capacity (some name) >>= λ capacity. gets (λ w. record {
  reserved_capacity = pool.reserved_capacity;
  path = pool.path;
  reserved_capacity_mode = pool.reserved_capacity_mode;
  capacity = capacity;
  copy_on_write_supported = or_false (lookup name w.cow_support_map);
})

unfoldable pub pool_stats : Dict StoragePool → Exec World (Dict PoolStat)
pool_stats [] = pure []
pool_stats ((name, pool) ∷ pools) =
    pool_stat name pool >>= λ s. pool_stats pools >>= λ rest. pure ((name, s) ∷ rest)

-- `GetPoolsStats`
unfoldable pub get_pools_stats : Exec World (Dict PoolStat)
get_pools_stats = gets (λ w. w.config.storage_pools) >>= pool_stats

-- The values of the metadata are passed on as they are.
pub record VolumeStat : Type 0 where
  pub name : String
  pub size : Value
  pub copy_on_write : Bool
  pub thin_provision : Value
  pub ready : Value
  pub deleted_at : Value
  pub created_at : Value
  pub gc_at : Value
  pub freezefs : Value
  pub storage_pool : Value
  pub img_file : Value
  pub stats : VolumeStats

abbrev pub volume_stat : String → Json → VolumeStats → Exec World VolumeStat
volume_stat v meta stats = gets (copy_on_write_of meta) >>= λ cow.
    lift (item "size" meta) >>= λ size. lift (item "thin_provision" meta) >>= λ thin.
    lift (item "ready" meta) >>= λ ready. lift (item "created_at" meta) >>= λ created.
    lift (item "storage_pool" meta) >>= λ pool. lift (item "img_file" meta) >>= λ image.
    pure (record {
      name = v;
      size = size;
      copy_on_write = cow;
      thin_provision = thin;
      ready = ready;
      deleted_at = get_item null "deleted_at" meta;
      created_at = created;
      gc_at = get_item null "gc_at" meta;
      freezefs = get_item (bool false) "freezefs" meta;
      storage_pool = pool;
      img_file = image;
      stats = stats;
    })

abbrev pub is_text : String → Value → Bool
is_text s (text t) = str_eq t s
is_text s _ = false

-- The tests of the loop: the volume has metadata, and it is in the pool that is asked for, if one is.
abbrev pub is_asked_for : String → Json → Bool
is_asked_for pool_name meta =
    not (is_empty meta)
    && (if str_eq pool_name "" then true else is_text pool_name (get_item null "storage_pool" meta))

abbrev pub add_stat : String → Json → Option VolumeStats → Exec World (Dict VolumeStat)
add_stat v meta none = pure []
add_stat v meta (some stats) = volume_stat v meta stats >>= λ s. pure ((v, s) ∷ [])

-- One round of the loop.
abbrev pub volume_round : String → String → Exec World (Dict VolumeStat)
volume_round pool_name v = metadata_or v >>= λ meta.
    if is_asked_for pool_name meta then (get_volume_stats v >>= add_stat v meta) else pure []

unfoldable pub volume_rounds : String → List String → Exec World (Dict VolumeStat)
volume_rounds pool_name [] = pure []
volume_rounds pool_name (v ∷ vs) =
    volume_round pool_name v >>= λ here. volume_rounds pool_name vs >>= λ rest. pure (here ++ rest)

-- `GetVolumesStat`
unfoldable pub get_volumes_stat : String → String → Exec World (Dict VolumeStat)
get_volumes_stat volume_name pool_name =
    (if str_eq volume_name "" then list_all_volumes else pure (volume_name ∷ []))
    >>= volume_rounds pool_name

pub record NodeTask : Type 0 where
  pub task : TaskName
  pub args : List Value
  pub kwargs : Json
  pub retry_count : ℤ
  pub state : TaskState

abbrev node_task : TaskInfo → NodeTask
node_task t = record {
  task = t.task;
  args = t.args;
  kwargs = t.kwargs;
  retry_count = t.retry_count;
  state = t.state;
}

-- `GetNodeTasks`
unfoldable pub get_node_tasks : TaskManager → Dict NodeTask
get_node_tasks m = map (λ e. (e.0, node_task e.1)) (get_tasks none none m)

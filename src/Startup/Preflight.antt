-- ===== src/Startup/Preflight.antt =====
-- rawfile/rawfile.py: the checks and the moves of old files with which a node's driver starts, and those of
-- rawfile/utils/volume_manager.py and rawfile/utils/task_manager.py that it calls. `accessible` is
-- `os.access`, and `dev` the device that `os.stat` gives for a path. Permissions are not modelled.
use rawfile_localpv.Prelude.{
  ℕ, Bool, false, not, ◌||◌, List, [], ◌∷◌, String, Dict, lookup, if◌then◌else◌, ◌==◌,
}
use rawfile_localpv.Paths.{FilePath, child, parent, file_name}
use rawfile_localpv.Errors.{file_not_found, runtime_error, key_error}
use rawfile_localpv.Exec.{Exec, ◌>>=◌, ◌>>◌, pure, or_raise, raise_if, modify}
use rawfile_localpv.Node.World.{
  Config, StoragePool, World, node_at, is_some, is_dir, exists, mkdir_parents, replace,
}
use rawfile_localpv.Node.Metadata.{meta_dir, is_cow_supported}
use rawfile_localpv.Volumes.Destroy.{for_each, volumes_of, migrate_all_volume_schemas}

abbrev pub any_number : ℕ → List ℕ → Bool
any_number n [] = false
any_number n (m ∷ ms) = (m == n) || any_number n ms

-- `[pool.path for pool in config.csi_driver.storage_pools.values()]`
abbrev pub pool_paths : Dict StoragePool → List FilePath
pool_paths [] = []
pool_paths ((_, pool) ∷ pools) = pool.path ∷ pool_paths pools

-- `shutil.move`, which moves into a folder that stands at the destination.
unfoldable pub move : FilePath → FilePath → Exec World Unit
move src dst w =
    if is_dir (node_at dst w) then replace src (child dst (file_name src)) w else replace src dst w

abbrev pub make_and_move : FilePath → FilePath → Exec World Unit
make_and_move src dst = mkdir_parents (parent dst) >> move src dst

abbrev pub move_if_there : FilePath → FilePath → Exec World Unit
move_if_there src dst = exists src >>= λ there. if there then make_and_move src dst else pure tt

abbrev pub move_named : FilePath → String → String → Exec World Unit
move_named pool v f w = move_if_there (child (child pool v) f) (child (meta_dir v w) f) w

-- One volume of `migrate_metadata_dir`; `pool` is the path of the default pool.
abbrev pub move_metadata : FilePath → String → Exec World Unit
move_metadata pool v =
    for_each (move_named pool v) ("disk.meta" ∷ "disk.meta.tmp" ∷ "disk.lock" ∷ [])

abbrev pub default_path : Config → Exec World FilePath
default_path c w =
    (or_raise (lookup c.default_pool c.storage_pools) (key_error c.default_pool) >>= λ pool.
    pure pool.path)
      w

unfoldable pub migrate_metadata_dir : Config → Exec World Unit
migrate_metadata_dir c =
    default_path c >>= λ pool. (λ w. for_each (move_metadata pool) (volumes_of pool w.files) w)

-- `migrate_tasks_file_path`, with `_tasks_store_path`.
unfoldable pub migrate_tasks_file_path : FilePath → Config → Exec World Unit
migrate_tasks_file_path tasks_store_path c = default_path c >>= λ pool.
    exists (child pool "tasks.json") >>= λ there.
    if there then move (child pool "tasks.json") tasks_store_path else pure tt

abbrev pub cow_support : Dict StoragePool → Exec World (Dict Bool)
cow_support [] = pure []
cow_support ((name, pool) ∷ pools) = is_cow_supported pool.path pool.path >>= λ b.
    cow_support pools >>= λ rest. pure ((name, b) ∷ rest)

unfoldable pub set_cow_support : Config → Exec World Unit
set_cow_support c =
    cow_support c.storage_pools >>= λ d. modify (λ w. record w { cow_support_map = d })

-- The tasks are stored in `tasks.json` of the metadata folder.
abbrev pub migrate_all : Config → Exec World Unit
migrate_all c =
    migrate_all_volume_schemas
    >> migrate_tasks_file_path (child c.metadata_dir "tasks.json") c
    >> set_cow_support c

module _ (accessible : FilePath → World → Bool) (dev : FilePath → ℕ) where
  unfoldable pub create_and_check_directory : FilePath → Exec World Unit
  create_and_check_directory d = exists d >>= λ there.
      (if there then pure tt else mkdir_parents d)
      >> (λ w. raise_if (not (is_dir (node_at d w))) runtime_error w)
      >> (λ w. raise_if (not (accessible d w)) runtime_error w)

  -- `for path in [...]: dev = stat(path)["dev"]`, after the devices `devs`.
  unfoldable pub check_devices : List ℕ → List FilePath → Exec World Unit
  check_devices devs [] = pure tt
  check_devices devs (p ∷ ps) =
      (λ w. raise_if (not (is_some (node_at p w))) file_not_found w)
      >> raise_if (any_number (dev p) devs) runtime_error
      >> check_devices (dev p ∷ devs) ps

  abbrev pub check_pools : Config → Exec World Unit
  check_pools c =
      for_each create_and_check_directory (c.metadata_dir ∷ pool_paths c.storage_pools)
      >> check_devices [] (pool_paths c.storage_pools)

  -- `node_driver_preflight_checks`, on settings that have a metadata folder and pools.
  unfoldable pub preflight : Exec World Unit
  preflight w = (check_pools w.config >> migrate_metadata_dir w.config >> migrate_all w.config) w

-- ===== src/Node/World.antt =====
-- The state that the driver's operations share on a node, and the calls of Python's standard library
-- that they make on it.
use rawfile_localpv.Prelude.{
  ℕ, ◌+◌, Bool, true, false, Option, none, some, List, [], ◌∷◌, String, Dict, is_empty,
  if◌then◌else◌,
}
use rawfile_localpv.Paths.{FilePath, root, child, parent}
use rawfile_localpv.Json.{Json}
use rawfile_localpv.Errors.{
  Exception, Result, ok, err, file_not_found, not_empty, file_exists, not_a_directory,
  is_a_directory, value_error,
}
use rawfile_localpv.Exec.{Exec, pure, raise, modify}
use rawfile_localpv.Node.Files.{
  File, Node, dir, file, json_file, Files, find, put, drop_path, children,
}

pub data ReservedCapacityMode : Type 0 where
  plain subtract_from_total : ReservedCapacityMode

-- A percentage, or a number of bytes.
pub data ReservedCapacity : Type 0 where
  percent : ℕ → ReservedCapacity
  byte_size : ℕ → ReservedCapacity

pub record StoragePool : Type 0 where
  pub path : FilePath
  pub reserved_capacity : ReservedCapacity
  pub reserved_capacity_mode : ReservedCapacityMode

-- The part of the configuration that the node's operations read.
pub record Config : Type 0 where
  pub metadata_dir : FilePath
  pub storage_pools : Dict StoragePool
  pub default_pool : String
  pub resize_enabled : Bool
  pub snapshots_enabled : Bool

-- `os.statvfs`
pub record StatVfs : Type 0 where
  pub f_frsize : ℕ
  pub f_blocks : ℕ
  pub f_bavail : ℕ
  pub f_files : ℕ
  pub f_favail : ℕ
  pub f_fsid : ℕ

-- What the program gets from outside: the kernel and the programs that it runs. `cp` is given whether
-- reflinks are required, the source and what stands at the destination, and gives its success and
-- what stands at the destination afterwards; `fallocate` gives the grown file, unless it fails. `resolve` is
-- `Path.resolve`, which follows the links of the file system.
pub record Host : Type 0 where
  pub losetup_j : FilePath → List String
  pub cp : Bool → Option Node → Option Node → Bool × Option Node
  pub fallocate : File → ℕ → Option File
  pub blocks_after : File → ℕ → ℕ
  pub statvfs : FilePath → StatVfs
  pub findmnt_device : String → Option FilePath
  pub freezable : String → Bool
  pub resolve : FilePath → Files → FilePath

-- `now` is what `time.time()` gave last, `ticks` how much later each next reading is, and `locked`
-- the volumes whose lock another thread holds.
pub record World : Type 0 where
  pub files : Files
  pub config : Config
  pub cow_support_map : Dict Bool
  pub host : Host
  pub now : ℕ
  pub ticks : List ℕ
  pub locked : String → Bool

abbrev pub with_files : Files → World → World
with_files fs w = record w { files = fs }

abbrev pub node_at : FilePath → World → Option Node
node_at p w = find p w.files

abbrev pub is_some {ℓ} : {A : Type ℓ} → Option A → Bool
is_some none = false
is_some (some a) = true

abbrev pub is_dir : Option Node → Bool
is_dir (some dir) = true
is_dir _ = false

-- `path.exists()`
unfoldable pub exists : FilePath → Exec World Bool
exists p w = (ok (is_some (node_at p w)), w)

abbrev pub create_at : Option Node → FilePath → Node → Exec World Unit
create_at none p n w = (err file_not_found, w)
create_at (some dir) p n w = (ok tt, with_files (put p n w.files) w)
create_at (some _) p n w = (err not_a_directory, w)

-- A new entry needs its directory.
abbrev pub create : FilePath → Node → Exec World Unit
create p n w = create_at (node_at (parent p) w) p n w

abbrev mkdir_at : Option Node → Bool → FilePath → Exec World Unit
mkdir_at none exist_ok p = create p dir
mkdir_at (some dir) true p = pure tt
mkdir_at (some _) _ p = raise file_exists

-- `path.mkdir(exist_ok=…)`
unfoldable pub mkdir : Bool → FilePath → Exec World Unit
mkdir exist_ok p w = mkdir_at (node_at p w) exist_ok p w

-- A file in the way above a path is not a folder.
abbrev pub above_error : Exception → Exception
above_error file_exists = not_a_directory
above_error e = e

-- A folder at `p`, when the folders above it have been made.
abbrev pub made : Option Node → FilePath → World → Result Unit × World → Result Unit × World
made none p w (ok _, w') = (ok tt, with_files (put p dir w'.files) w')
made none p w (err e, w') = (err (above_error e), w')
made (some x) p w up = (if is_dir (some x) then ok tt else err file_exists, w)

-- `path.mkdir(exist_ok=True, parents=True)`
unfoldable pub mkdir_parents : FilePath → Exec World Unit
mkdir_parents root w = (ok tt, w)
mkdir_parents (child p n) w =
    let up = mkdir_parents p w in made (node_at (child p n) w) (child p n) w up

abbrev pub empty_file : Node
empty_file = file (record { size = 0; blocks = 0; content = "" })

-- `path.touch()`
unfoldable pub touch : FilePath → Exec World Unit
touch p w = if is_some (node_at p w) then (ok tt, w) else create p empty_file w

abbrev pub unlink_at : Option Node → Bool → FilePath → Exec World Unit
unlink_at none true p = pure tt
unlink_at none false p = raise file_not_found
unlink_at (some dir) _ p = raise is_a_directory
unlink_at (some _) _ p = modify (λ w. with_files (drop_path p w.files) w)

-- `path.unlink(missing_ok=…)`
unfoldable pub unlink : Bool → FilePath → Exec World Unit
unlink missing_ok p w = unlink_at (node_at p w) missing_ok p w

abbrev pub rmdir_at : Option Node → FilePath → Exec World Unit
rmdir_at none p w = (err file_not_found, w)
rmdir_at (some dir) p w =
    if is_empty (children p w.files)
    then (ok tt, with_files (drop_path p w.files) w)
    else (err not_empty, w)
rmdir_at (some _) p w = (err not_a_directory, w)

-- `path.rmdir()`
unfoldable pub rmdir : FilePath → Exec World Unit
rmdir p w = rmdir_at (node_at p w) p w

-- `open(path, "w")` and `json.dump`, at a path where a file or nothing stands: a folder, for which Python
-- raises, and a link, which it follows, are replaced here.
unfoldable pub write_json : FilePath → Json → Exec World Unit
write_json p j = create p (json_file j)

abbrev pub replace_at : Option Node → FilePath → FilePath → Exec World Unit
replace_at none p q = raise file_not_found
replace_at (some n) p q = modify (λ w. with_files (put q n (drop_path p w.files)) w)

-- `os.replace`
unfoldable pub replace : FilePath → FilePath → Exec World Unit
replace p q w = replace_at (node_at p w) p q w

abbrev pub read_json_at : Option Node → Result Json
read_json_at none = err file_not_found
read_json_at (some (json_file j)) = ok j
read_json_at (some dir) = err is_a_directory
read_json_at (some _) = err value_error

-- `json.loads(path.read_text())`
unfoldable pub read_json : FilePath → Exec World Json
read_json p w = (read_json_at (node_at p w), w)

abbrev pub tick : List ℕ → Exec World ℕ
tick [] w = (ok w.now, w)
tick (t ∷ ts) w = (ok (w.now + t), record w { now = w.now + t; ticks = ts })

-- `time.time()`
unfoldable pub time : Exec World ℕ
time w = tick w.ticks w

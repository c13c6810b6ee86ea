-- ===== src/Csi/Waiting.antt =====
-- rawfile/rawfile_servicer.py and rawfile/bd2fs.py: CreateVolume and CreateSnapshot, which start a task and
-- wait for what it makes. `sleeps` is what happens during each sleep of the call; `none` is the answer
-- of a call that has not ended after all of them.
use Prim.Native.String.{◌++◌ as text_append}
use rawfile_localpv.Prelude.{
  ℕ, ◌+◌, ◌*◌, Bool, true, false, not, Option, none, some, List, [], ◌∷◌, String, ltb,
  if◌then◌else◌,
}
use rawfile_localpv.Json.{Value, bool, text, Json}
use rawfile_localpv.Errors.{
  Result, ok, err, file_not_found, aborted, deadline_exceeded, unimplemented,
}
use rawfile_localpv.Exec.{Exec, ◌>>=◌, ◌>>◌, pure, raise, raise_if, modify}
use rawfile_localpv.Node.World.{World, time}
use rawfile_localpv.Node.Metadata.{get_item, truthy, metadata, metadata_or, with_vol_lock}
use rawfile_localpv.Volumes.Snapshots.{Snapshot, copy_on_write_of}
use rawfile_localpv.Volumes.Paging.{find_snapshot}
use rawfile_localpv.Tasks.Defs.{TaskManager, TaskName, create_snapshot, create_volume}
use rawfile_localpv.Tasks.Manager.{run_task}
use rawfile_localpv.Csi.Provision.{CreateVolumeRequest, Plan, plan_volume}
use rawfile_localpv.Csi.Stage.{creation_args}

pub record Driver : Type 0 where
  pub node : World
  pub manager : TaskManager

module _ {A : Type 0} where
  abbrev pub put_node : TaskManager → Result A × World → Result A × Driver
  put_node m (r, w) = (r, record { node = w; manager = m })

  abbrev pub on_node : Exec World A → Exec Driver A
  on_node m d = put_node d.manager (m d.node)

  abbrev put_manager : World → Result A × TaskManager → Result A × Driver
  put_manager w (r, m) = (r, record { node = w; manager = m })

  abbrev pub on_manager : Exec TaskManager A → Exec Driver A
  on_manager m d = put_manager d.node (m d.manager)

-- 30 seconds, in microseconds.
abbrev pub deadline : ℕ
deadline = 30 * 1000000

module _ {A : Type 0} where
  abbrev pub found :
      Option A
      → (Driver → Driver)
      → Exec Driver (Option (Option A))
      → Exec Driver (Option (Option A))
  found (some a) sleep rest = pure (some (some a))
  found none sleep rest = modify sleep >> rest

  -- `while time.time() - start_time < 30`, with what the last round found.
  unfoldable pub poll :
      Exec Driver (Option A)
      → ℕ
      → Option A
      → List (Driver → Driver)
      → Exec Driver (Option (Option A))
  poll check start last [] =
      on_node time >>= λ t. pure (if ltb t (start + deadline) then none else some last)
  poll check start last (sleep ∷ sleeps) = on_node time >>= λ t.
      let rest = poll check start none sleeps in
      if ltb t (start + deadline) then (check >>= λ o. found o sleep rest) else pure (some last)

abbrev pub ready_of : Json → Option Bool
ready_of meta = if truthy (get_item (bool false) "ready" meta) then some true else none

-- `metadata_or(name).get("ready", False)`
abbrev pub volume_check : String → Exec Driver (Option Bool)
volume_check name = on_node (metadata_or name) >>= λ meta. pure (ready_of meta)

-- The parameters of a request that the checks do not read.
pub record CreationOptions : Type 0 where
  pub thin_provision : Bool
  pub freezefs : Bool
  pub copy_on_write : Option Bool
  pub format_options : String

pub record CreateVolumeResponse : Type 0 where
  pub volume_id : String
  pub format_options : String
  pub capacity_bytes : ℕ
  pub node_name : String

abbrev pub first_snapshot : List Snapshot → Option Snapshot
first_snapshot [] = none
first_snapshot (s ∷ _) = some s

abbrev pub if_ready : Option Snapshot → Option Snapshot
if_ready none = none
if_ready (some s) = if s.ready then some s else none

-- `_get_current_snapshot`
abbrev pub current_snapshot : String → String → Exec Driver (Option Snapshot)
current_snapshot v name =
    on_node (find_snapshot v name false) >>= λ l. pure (first_snapshot l.snapshots)

abbrev pub snapshot_check : String → String → Exec Driver (Option Snapshot)
snapshot_check v name = current_snapshot v name >>= λ s. pure (if_ready s)

pub record CreateSnapshotResponse : Type 0 where
  pub size_bytes : ℕ
  pub snapshot_id : String
  pub source_volume_id : String
  pub ready_to_use : Bool

abbrev pub snapshot_kwargs : String → String → Json → World → Json
snapshot_kwargs v name meta w =
    ("volume_id", text v)
    ∷ ("name", text name)
    ∷ ("copy_on_write", bool (copy_on_write_of meta w))
    ∷ ("freeze_fs", get_item (bool false) "freezefs" meta)
    ∷ []

-- What CreateSnapshot reads under the volume's lock, for the task.
abbrev pub snapshot_arguments : String → String → Exec Driver Json
snapshot_arguments v name =
    (λ d.
      raise_if (not d.node.config.snapshots_enabled)
        (aborted unimplemented "Snapshotting capabilities are disabled.") d)
    >> on_node
        (with_vol_lock v (metadata v >>= λ meta. λ w. (ok (snapshot_kwargs v name meta w), w)))

module _ (hash : TaskName → List Value → Json → String) where
  -- Where the volume has no metadata yet, its creation is started.
  abbrev pub start_creation :
      String → Plan → CreationOptions → Result Json × Driver → Result (Option Bool) × Driver
  start_creation name plan o (ok meta, d) = (ok (ready_of meta), d)
  start_creation name plan o (err file_not_found, d) =
      (on_manager (
            run_task hash create_volume
              (creation_args name plan.size plan.storage_pool o.thin_provision o.freezefs
                o.copy_on_write plan.source)
              [])
          >> pure none)
        d
  start_creation name plan o (err e, d) = (err e, d)

  abbrev pub volume_answer :
      String
      → Plan
      → CreationOptions
      → Option (Option Bool)
      → Exec Driver (Option CreateVolumeResponse)
  volume_answer name plan o none = pure none
  volume_answer name plan o (some none) =
      raise (aborted deadline_exceeded "Volume Still Creating...")
  volume_answer name plan o (some (some _)) = pure (
      some (record {
        volume_id = name;
        format_options = o.format_options;
        capacity_bytes = plan.size;
        node_name = plan.node_name;
      }))

  abbrev pub wait_for_volume :
      String
      → Plan
      → CreationOptions
      → List (Driver → Driver)
      → Option Bool
      → Exec Driver (Option CreateVolumeResponse)
  wait_for_volume name plan o sleeps last = on_node time >>= λ start.
      poll (volume_check name) start last sleeps >>= volume_answer name plan o

  -- `CreateVolume`, of both services.
  unfoldable pub create_volume_call :
      String
      → String
      → CreateVolumeRequest
      → CreationOptions
      → List (Driver → Driver)
      → Exec Driver (Option CreateVolumeResponse)
  create_volume_call topology_key name request o sleeps =
      on_node (plan_volume topology_key request) >>= λ plan.
      (λ d. start_creation name plan o (on_node (metadata name) d))
      >>= wait_for_volume name plan o sleeps

  -- Where there is no such snapshot yet, its creation is started.
  abbrev pub start_snapshot : Json → Option Snapshot → Exec Driver Unit
  start_snapshot kwargs (some s) = pure tt
  start_snapshot kwargs none = on_manager (run_task hash create_snapshot [] kwargs) >> pure tt

  abbrev pub snapshot_answer :
      String → String → Option (Option Snapshot) → Exec Driver (Option CreateSnapshotResponse)
  snapshot_answer v name none = pure none
  snapshot_answer v name (some none) = on_node time >>= λ t. pure (
      some (record {
        size_bytes = 0;
        snapshot_id = text_append v (text_append "/" name);
        source_volume_id = v;
        ready_to_use = false;
      }))
  snapshot_answer v name (some (some s)) = pure (
      some (record {
        size_bytes = s.size_bytes;
        snapshot_id = s.snapshot_id;
        source_volume_id = s.volume_id;
        ready_to_use = s.ready;
      }))

  abbrev pub wait_for_snapshot :
      String → String → List (Driver → Driver) → Exec Driver (Option CreateSnapshotResponse)
  wait_for_snapshot v name sleeps = on_node time >>= λ start.
      poll (snapshot_check v name) start none sleeps >>= snapshot_answer v name

  abbrev pub snapshot_rest :
      String → String → List (Driver → Driver) → Json → Exec Driver (Option CreateSnapshotResponse)
  snapshot_rest v name sleeps kwargs =
      current_snapshot v name >>= start_snapshot kwargs >> wait_for_snapshot v name sleeps

  -- `CreateSnapshot`
  unfoldable pub create_snapshot_call :
      String → String → List (Driver → Driver) → Exec Driver (Option CreateSnapshotResponse)
  create_snapshot_call v name sleeps = snapshot_arguments v name >>= snapshot_rest v name sleeps

-- ===== src/Tasks/Defs.antt =====
-- rawfile/utils/task_manager.py: the data of the task manager and the operations on its store. The
-- store is the content of tasks.json, which Python reads back as it was written.
use rawfile_localpv.Prelude.{
  ℕ, String, Bool, true, false, ◌&&◌, Option, none, some, List, ◌∷◌, Dict, lookup, insert, erase,
  filter, contains, ℤ, pos, ltb_ℤ, leb_ℤ, length, if◌then◌else◌,
}
use rawfile_localpv.Json.{Value, Json}
use rawfile_localpv.Errors.{ok, err, key_error, runtime_error}
use rawfile_localpv.Exec.{Exec}

pub data TaskName : Type 0 where
  create_snapshot create_volume : TaskName

pub data TaskState : Type 0 where
  pending running failed completed : TaskState

-- The keys that `TaskInfo` requires are fields; one that is `NotRequired` is an `Option`.
pub record TaskInfo : Type 0 where
  pub task : TaskName
  pub args : List Value
  pub kwargs : Json
  pub retry_count : ℤ
  pub state : TaskState
  pub created_ts : Option ℕ
  pub saved_ts : Option ℕ
  pub retry_ts : Option ℕ
  pub last_error : Option String

-- An entry of `self._tasks`: the future, by its number among all that were submitted, and the task.
pub record Entry : Type 0 where
  pub future : ℕ
  pub info : TaskInfo

-- What the executor was given to run: a task's function with its arguments, or `retry_worker`.
pub data Job : Type 0 where
  run_job : TaskName → List Value → Json → Job
  worker_job : Job

-- `now` is the reading of the clock, `jobs` and `closed` are the executor's.
pub record TaskManager : Type 0 where
  pub tasks : Dict Entry
  pub shutting_down : Bool
  pub max_retry : ℕ
  pub store : Dict TaskInfo
  pub jobs : List Job
  pub closed : Bool
  pub now : ℕ

abbrev pub is_state : TaskState → TaskState → Bool
is_state pending pending = true
is_state running running = true
is_state failed failed = true
is_state completed completed = true
is_state _ _ = false

abbrev pub retriable_test : ℕ → Option Bool → TaskInfo → Bool
retriable_test max_retry none t = true
retriable_test max_retry (some true) t =
    ltb_ℤ t.retry_count (pos max_retry) && is_state t.state failed
retriable_test max_retry (some false) t = leb_ℤ (pos max_retry) t.retry_count

abbrev pub state_test : Option TaskState → TaskInfo → Bool
state_test none t = true
state_test (some s) t = is_state t.state s

unfoldable pub get_tasks : Option TaskState → Option Bool → TaskManager → Dict TaskInfo
get_tasks state retriable m =
    filter (state_test state) (filter (retriable_test m.max_retry retriable) m.store)

unfoldable pub get_task : String → TaskManager → Option TaskInfo
unfolding get_tasks
get_task task_id m = lookup task_id (get_tasks none none m)

-- `current.pop(task_id)` raises before anything is written.
unfoldable pub remove_task : String → Exec TaskManager Unit
remove_task task_id m =
    if contains task_id m.store
    then (ok tt, record m { store = erase task_id m.store })
    else (err (key_error task_id), m)

-- `task_info["saved_ts"] = datetime.now(UTC)`, on the caller's dict.
abbrev pub stamped : ℕ → TaskInfo → TaskInfo
stamped now info = record info { saved_ts = some now }

unfoldable pub save_task : String → TaskInfo → TaskManager → TaskManager
save_task task_id info m = record m { store = insert task_id (stamped m.now info) m.store }

-- `ThreadPoolExecutor.submit`
unfoldable pub submit : Job → Exec TaskManager ℕ
submit job m =
    if m.closed
    then (err runtime_error, m)
    else (ok (length m.jobs), record m { jobs = job ∷ m.jobs })

-- ===== src/Tasks/Manager.antt =====
-- rawfile/utils/task_manager.py: the methods of `TaskManager` that run, retry and end tasks. The
-- identifier of a task is `hash` of its name and arguments, `hash_task_info` of the source: an MD5
-- digest of their JSON, which the library computes.
use rawfile_localpv.Prelude.{
  ℕ, String, Bool, true, false, ◌&&◌, not, Option, none, some, List, insert, ℤ, negsuc,
  if◌then◌else◌,
}
use rawfile_localpv.Json.{Value, Json}
use rawfile_localpv.Errors.{ok, err, task_manager_shutting_down}
use rawfile_localpv.Exec.{Exec, ◌>>=◌, ◌>>◌, modify, pure}
use rawfile_localpv.Tasks.Defs.{
  TaskName, pending, running, TaskInfo, run_job, TaskManager, get_task, stamped, save_task, submit,
}

-- How a future ends.
pub data Outcome : Type 0 where
  returned : Outcome
  raised : String → Outcome
  cancelled : Outcome

-- `current.get("state", None)`
abbrev is_known : Option TaskInfo → Bool
is_known none = false
is_known (some t) = true

abbrev count_of : Option TaskInfo → ℤ
count_of none = negsuc 0
count_of (some t) = t.retry_count

abbrev error_of : Option TaskInfo → Option String
error_of none = none
error_of (some t) = t.last_error

abbrev when_retried {ℓ} : {A : Type ℓ} → Bool → Option TaskInfo → Option A → Option A
when_retried true (some t) a = a
when_retried _ _ a = none

-- The `info` that `run_task_ext` builds from the stored entry `current`, if there is one.
unfoldable pub new_info : TaskName → Bool → List Value → Json → Option TaskInfo → ℕ → TaskInfo
new_info task retry args kwargs current now = record {
  task = task;
  args = args;
  kwargs = kwargs;
  retry_count = count_of current;
  state = pending;
  created_ts = some now;
  saved_ts = none;
  retry_ts = when_retried retry current (some now);
  last_error = when_retried retry current (error_of current);
}

-- From the first `save_task` of `run_task_ext` to its end.
unfoldable pub launch : String → TaskInfo → Exec TaskManager String
unfolding submit save_task
launch task_id info = do
  modify (save_task task_id info)
  future ← submit (run_job info.task info.args info.kwargs)
  modify (save_task task_id (record info { state = running }))
  modify (λ m. record m {
    tasks =
        insert task_id
          (record { future = future; info = stamped m.now (record info { state = running }) })
          m.tasks;
  })
  pure task_id

module _ (hash : TaskName → List Value → Json → String) where
  unfoldable pub run_task_ext : TaskName → Bool → List Value → Json → Exec TaskManager String
  run_task_ext task retry args kwargs m =
      let task_id = hash task args kwargs in
      let current = get_task task_id m in
      if m.shutting_down
      then (err task_manager_shutting_down, m)
      else if not retry && is_known current
      then (ok task_id, m)
      else launch task_id (new_info task retry args kwargs current m.now) m

  unfoldable pub run_task : TaskName → List Value → Json → Exec TaskManager String
  run_task task = run_task_ext task false

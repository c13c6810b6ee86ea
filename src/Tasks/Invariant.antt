-- ===== src/Tasks/Invariant.antt =====
-- The invariant of the task manager's store and memory, and the operations that keep it.
use rawfile_localpv.Prelude.{
  ℕ, ◌+◌, ◌≤◌, String, ◌≡◌, Bool, true, false, List, ◌∷◌, insert, pos_part, neg_part, AllItems,
  IsUnique, AllItems-insert, insert-IsUnique, inl, inr, Bool-cases, length,
}
use rawfile_localpv.Json.{Value, Json}
use rawfile_localpv.Errors.{ok, err, runtime_error}
use rawfile_localpv.Tasks.Defs.{
  TaskName, TaskState, pending, running, failed, completed, TaskInfo, Entry, TaskManager, run_job,
  stamped, save_task,
}
use rawfile_localpv.Tasks.Manager.{launch}

-- A task that is pending or running may still fail once.
abbrev pub room : TaskState → ℕ
room pending = 1
room running = 1
room failed = 0
room completed = 0

-- The states that a task in memory may have, given whether a shutdown has begun.
abbrev pub IsLive : Bool → TaskState → Type 0
IsLive stopping running = Unit
IsLive true failed = Unit
IsLive _ _ = ⊥

-- The manager after a `launch` that the executor accepts.
abbrev pub launched : String → TaskInfo → TaskManager → TaskManager
launched i t m =
    let info = record t { state = running } in
    let m' = save_task i info (save_task i t m) in
    record m' {
      jobs = run_job t.task t.args t.kwargs ∷ m'.jobs;
      tasks = insert i (record { future = length m.jobs; info = stamped m.now info }) m'.tasks;
    }

pub launch_open :
    (i : String) (t : TaskInfo) (m : TaskManager)
    → m.closed ≡ false
    → launch i t m ≡ (ok i, launched i t m)
unfolding launch
launch_open i t m e = rw e

pub launch_closed :
    (i : String) (t : TaskInfo) (m : TaskManager)
    → m.closed ≡ true
    → launch i t m ≡ (err runtime_error, save_task i t m)
unfolding launch
launch_closed i t m e = rw e

module _ (hash : TaskName → List Value → Json → String) where
  -- The task is stored under its identifier, and its count of failures leaves room for the run that
  -- is under way.
  abbrev pub IsTask : ℕ → String → TaskInfo → Type 0
  IsTask max_retry task_id t =
      (task_id ≡ hash t.task t.args t.kwargs)
      × (room t.state + pos_part t.retry_count ≤ max_retry + neg_part t.retry_count)
      × (neg_part t.retry_count ≤ 1)

  -- A task in memory is running, or it was marked as failed by a shutdown that it outlived; its count
  -- leaves room for the run that is under way.
  abbrev pub IsHeld : Bool → ℕ → String → Entry → Type 0
  IsHeld stopping max_retry task_id e =
      IsTask max_retry task_id (record (e.info) { state = running }) × IsLive stopping e.info.state

  pub record IsValid (m : TaskManager) : Type 0 where
    pub unique : IsUnique m.store
    pub stored : AllItems (IsTask m.max_retry) m.store
    pub held : AllItems (IsHeld m.shutting_down m.max_retry) m.tasks

  pub save_task-IsValid :
      (i : String) (t : TaskInfo) (m : TaskManager)
      → IsTask m.max_retry i t
      → IsValid m
      → IsValid (save_task i t m)
  unfolding save_task
  save_task-IsValid i t m h v = record {
    unique = insert-IsUnique i _ m.store v.unique;
    stored = AllItems-insert _ i _ m.store h v.stored;
    held = v.held;
  }

  pub launched-IsValid :
      (i : String) (t : TaskInfo) (m : TaskManager)
      → IsTask m.max_retry i (record t { state = running })
      → IsTask m.max_retry i t
      → IsValid m
      → IsValid (launched i t m)
  unfolding save_task
  launched-IsValid i t m h h' v =
      let kept =
        save_task-IsValid i (record t { state = running }) (save_task i t m) h
          (save_task-IsValid i t m h' v) in
      record {
        unique = kept.unique;
        stored = kept.stored;
        held = AllItems-insert _ i _ m.tasks (h, tt) v.held;
      }

  pub launch-IsValid :
      (i : String) (t : TaskInfo) (m : TaskManager)
      → IsTask m.max_retry i (record t { state = running })
      → IsTask m.max_retry i t
      → IsValid m
      → IsValid (launch i t m).1
  launch-IsValid i t m h h' v = elim (Bool-cases m.closed) [
    | inl e ↦ rw (launch_closed i t m e) (save_task-IsValid i t m h' v)
    | inr e ↦ rw (launch_open i t m e) (launched-IsValid i t m h h' v)
  ]

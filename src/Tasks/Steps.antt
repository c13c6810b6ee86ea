-- ===== src/Tasks/Steps.antt =====
-- The task manager's life as steps: requests, ends of tasks, rounds of the retry worker, the clock,
-- a shutdown, and a crash with the restart that follows. A round of the worker is one step.
use rawfile_localpv.Prelude.{ℕ, String, ◌≡◌, refl, arith, false, none, List, [], lookup}
use rawfile_localpv.Json.{Value, Json}
use rawfile_localpv.Tasks.Defs.{TaskName, TaskManager, save_task}
use rawfile_localpv.Tasks.Manager.{Outcome, new_info, run_task}
use rawfile_localpv.Tasks.Worker.{done_callback, worker_round, start, Poll, shutdown}
use rawfile_localpv.Tasks.Invariant.{IsValid, save_task-IsValid}
use rawfile_localpv.Tasks.Retry.{run_task-IsValid}
use rawfile_localpv.Tasks.Rounds.{worker_round-IsValid}
use rawfile_localpv.Tasks.Ends.{done_callback-IsValid, start-IsValid, shutdown-IsValid}

-- A process that starts on the store that another left: nothing is in memory.
abbrev pub rebooted : TaskManager → TaskManager
rebooted m = record m { tasks = []; jobs = []; closed = false; shutting_down = false }

module _ (hash : TaskName → List Value → Json → String) where
  pub data Step (m : TaskManager) : TaskManager → Type 0 where
    request :
        (n : TaskName) (args : List Value) (kwargs : Json)
        → Step m (run_task hash n args kwargs m).1
    done : (i : String) (o : Outcome) → Step m (done_callback i o m).1
    round : Step m (worker_round hash m)
    tick : (now : ℕ) → Step m (record m { now = now })
    stop : (polls : List Poll) → Step m (shutdown polls m)
    crash : Step m (start (rebooted m)).1
    -- a crash between the first `save_task` of a new request and the executor's start
    torn :
        (n : TaskName) (args : List Value) (kwargs : Json)
        → lookup (hash n args kwargs) m.store ≡ none
        → Step m
            (start (
              rebooted
                (save_task (hash n args kwargs) (new_info n false args kwargs none m.now) m))).1

  pub data Reach (m : TaskManager) : TaskManager → Type 0 where
    here : Reach m m
    next : {t u : TaskManager} → Reach m t → Step t u → Reach m u

  pub torn_save-IsValid :
      (n : TaskName) (args : List Value) (kwargs : Json) (m : TaskManager)
      → IsValid hash m
      → IsValid hash (save_task (hash n args kwargs) (new_info n false args kwargs none m.now) m)
  torn_save-IsValid n args kwargs m v =
      save_task-IsValid hash (hash n args kwargs) (new_info n false args kwargs none m.now) m
        (unfold new_info in (refl, omega arith, omega arith)) v

  pub rebooted-IsValid : (m : TaskManager) → IsValid hash m → IsValid hash (rebooted m)
  rebooted-IsValid m v = record { unique = v.unique; stored = v.stored; held = tt }

  pub Step-IsValid : {m u : TaskManager} → Step m u → IsValid hash m → IsValid hash u
  Step-IsValid {m} (request n args kwargs) v = run_task-IsValid hash n args kwargs m v
  Step-IsValid {m} (done i o) v = done_callback-IsValid hash i o m v
  Step-IsValid {m} round v = worker_round-IsValid hash m v
  Step-IsValid (tick now) v = record { unique = v.unique; stored = v.stored; held = v.held }
  Step-IsValid {m} (stop polls) v = shutdown-IsValid hash polls m v
  Step-IsValid {m} crash v = start-IsValid hash (rebooted m) (rebooted-IsValid m v)
  Step-IsValid {m} (torn n args kwargs fresh) v =
      let torn_save = save_task (hash n args kwargs) (new_info n false args kwargs none m.now) m in
      start-IsValid hash (rebooted torn_save)
        (rebooted-IsValid torn_save (torn_save-IsValid n args kwargs m v))

  -- From a valid manager every manager that any steps reach is valid: no identifier is stored twice,
  -- a task is stored under the identifier of its own name and arguments, its count of failures is
  -- between -1 and the bound on retries, and below the bound while it is pending or running, and
  -- every task in memory is running or, once a shutdown has begun, marked as failed, with room for one
  -- more failure.
  pub Reach-IsValid : {m u : TaskManager} → Reach m u → IsValid hash m → IsValid hash u
  Reach-IsValid here v = v
  Reach-IsValid (next r s) v = Step-IsValid s (Reach-IsValid r v)

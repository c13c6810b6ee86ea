-- ===== src/Tasks/Tests.antt =====
-- The task manager on a small store.
use rawfile_localpv.Prelude.{
  ◌≡◌, refl, String, false, none, some, List, [], ◌∷◌, lookup, insert, ℤ, pos, negsuc, arith, ◌+ℤ◌,
  filter, erase,
}
use rawfile_localpv.Json.{Value, Json, text}
use rawfile_localpv.Errors.{ok}
use rawfile_localpv.Tasks.Defs.{
  TaskName, create_snapshot, create_volume, TaskState, pending, running, failed, TaskInfo, Entry,
  TaskManager, save_task, submit, get_task, get_tasks, run_job,
}
use rawfile_localpv.Tasks.Manager.{run_task, run_task_ext, launch, new_info, returned, raised}
use rawfile_localpv.Tasks.Worker.{done_callback, end_entry, finish, worker_round, start}
use rawfile_localpv.Tasks.Invariant.{IsValid}
use rawfile_localpv.Tasks.Frame.{Avoids}
use rawfile_localpv.Tasks.Rounds.{worker_round-IsActive, IsActive}
use rawfile_localpv.Tasks.Steps.{request, done, round, here, next, Reach-IsValid}
use rawfile_localpv.Tasks.Orphan.{pending_task_is_stuck}
use rawfile_localpv.Tasks.Recovery.{restarted, lookup-start}
use rawfile_localpv.Tasks.Requests.{submitted, run_task_twice}

abbrev hash : TaskName → List Value → Json → String
hash create_snapshot args kwargs = "snapshot"
hash create_volume args kwargs = "volume"

abbrev empty : TaskManager
empty = record {
  tasks = [];
  shutting_down = false;
  max_retry = 5;
  store = [];
  jobs = [];
  closed = false;
  now = 7;
}

abbrev args : List Value
args = text "pvc-1" ∷ []

abbrev task : TaskState → ℤ → TaskInfo
task state count = record {
  task = create_volume;
  args = args;
  kwargs = [];
  retry_count = count;
  state = state;
  created_ts = some 3;
  saved_ts = some 3;
  retry_ts = none;
  last_error = none;
}

abbrev storing : TaskInfo → TaskManager
storing t = record empty { store = ("volume", t) ∷ [] }

storing-IsValid : IsValid hash (storing (task pending (negsuc 0)))
storing-IsValid = record {
  unique = unfold lookup in (refl, tt);
  stored = ((refl, omega arith, omega arith), tt);
  held = tt;
}

running-IsValid : IsValid hash (storing (task running (pos 2)))
running-IsValid = record {
  unique = unfold lookup in (refl, tt);
  stored = ((refl, omega arith, omega arith), tt);
  held = tt;
}

empty-IsValid : IsValid hash empty
empty-IsValid = record { unique = tt; stored = tt; held = tt }

-- The first request for a volume runs it.
request_runs :
    lookup "volume" (run_task hash create_volume args [] empty).1.store
    ≡ some (record (task running (negsuc 0)) { created_ts = some 7; saved_ts = some 7 })
unfolding run_task run_task_ext get_task get_tasks launch new_info filter erase insert lookup
request_runs = refl

-- The task fails, and the next round runs it again.
abbrev failed_once : TaskManager
failed_once =
    (done_callback "volume" (raised "boom") (run_task hash create_volume args [] empty).1).1

failed_once_task :
    lookup "volume" failed_once.store
    ≡ some (record (task failed (pos 0)) {
      created_ts = some 7;
      saved_ts = some 7;
      last_error = some "boom";
    })
unfolding run_task run_task_ext get_task get_tasks launch new_info filter erase insert lookup
    done_callback end_entry finish save_task submit ◌+ℤ◌
failed_once_task = refl

run_task_twice_example :
    let (r, m') = run_task hash create_volume args [] empty in
    (r ≡ ok "volume")
    × (run_task hash create_volume args [] m' ≡ (ok "volume", m'))
    × (m'.jobs ≡ submitted (lookup "volume" empty.store) (run_job create_volume args []) empty.jobs)
run_task_twice_example = run_task_twice hash create_volume args [] empty refl refl

worker_round-IsActive_example :
    IsActive hash "volume"
      (task running (pos 2))
      (worker_round hash (storing (task running (pos 2))))
unfolding lookup
worker_round-IsActive_example =
    worker_round-IsActive hash "volume" (task running (pos 2)) refl (storing (task running (pos 2)))
      (record { valid = running-IsValid; present = refl })

Reach-IsValid_example :
    IsValid hash (done_callback "volume" returned (run_task hash create_volume args [] empty).1).1
Reach-IsValid_example =
    Reach-IsValid hash {m = empty}
      (next (next here (request create_volume args [])) (done "volume" returned)) empty-IsValid

pending_task_is_stuck_example :
    let m = storing (task pending (negsuc 0)) in
    let u = worker_round hash (run_task hash create_volume args [] m).1 in
    (lookup "volume" u.store ≡ some (task pending (negsuc 0))) × Avoids "volume" u.tasks
unfolding lookup
pending_task_is_stuck_example =
    pending_task_is_stuck hash "volume" (task pending (negsuc 0)) refl storing-IsValid refl tt
      (next (next here (request create_volume args [])) round)

lookup-start_example :
    lookup "volume" (start (storing (task running (pos 2)))).1.store
    ≡ restarted 7 (lookup "volume" (storing (task running (pos 2))).store)
unfolding lookup
lookup-start_example = lookup-start "volume" (storing (task running (pos 2))) running-IsValid.unique

abbrev busy : Entry
busy = record { future = 1; info = task running (negsuc 0) }

-- Two tasks are in memory.
abbrev two_tasks : TaskManager
two_tasks = record empty {
  tasks = ("snapshot", record busy { future = 0 }) ∷ ("volume", busy) ∷ [];
}

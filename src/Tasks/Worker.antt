-- ===== src/Tasks/Worker.antt =====
-- rawfile/utils/task_manager.py: the methods of `TaskManager` that end tasks, retry them in the
-- background, recover them at the start and stop them.
use rawfile_localpv.Prelude.{
  ℕ, String, Bool, true, false, Option, none, some, List, [], ◌∷◌, Dict, lookup, insert, erase,
  filter, pos, ◌==◌, ◌+ℤ◌, ◌-ℤ◌, ltb_ℤ, is_empty, if◌then◌else◌,
}
use rawfile_localpv.Json.{Value, Json}
use rawfile_localpv.Errors.{ok, err, cancelled as cancelled_error}
use rawfile_localpv.Exec.{Exec, ◌>>◌, pure}
use rawfile_localpv.Tasks.Defs.{
  TaskName, running, failed, completed, TaskInfo, Entry, worker_job, TaskManager, get_tasks,
  remove_task, save_task, stamped, submit,
}
use rawfile_localpv.Tasks.Manager.{Outcome, returned, raised, cancelled, run_task_ext}

-- What the end of `done_callback` makes of the task's dict, before it is saved.
abbrev pub ended : Outcome → TaskInfo → TaskInfo
ended returned info = record info { state = completed }
ended (raised error) info =
    let count = info.retry_count +ℤ pos 1 in
    record info { state = failed; retry_count = count; last_error = some error }
ended cancelled info = info

-- The end of `done_callback`, for a popped entry's task. `future.exception()` itself raises when
-- the future was cancelled.
unfoldable pub finish : String → Outcome → TaskInfo → Exec TaskManager Unit
unfolding save_task
finish task_id returned info m = (ok tt, save_task task_id (ended returned info) m)
finish task_id (raised error) info m = (ok tt, save_task task_id (ended (raised error) info) m)
finish task_id cancelled info m = (err cancelled_error, m)

-- What `done_callback` does with the popped entry: nothing but a log line if there was none.
unfoldable pub end_entry : String → Outcome → Option Entry → Exec TaskManager Unit
end_entry task_id outcome none m = (ok tt, m)
end_entry task_id outcome (some e) m =
    finish task_id outcome e.info (record m { tasks = erase task_id m.tasks })

unfoldable pub done_callback : String → Outcome → Exec TaskManager Unit
done_callback task_id outcome m = end_entry task_id outcome (lookup task_id m.tasks) m

-- A loop of `retry_worker` that removes the items that it read.
unfoldable pub remove_items : Dict TaskInfo → Exec TaskManager Unit
unfolding remove_task
remove_items [] = pure tt
remove_items ((task_id, t) ∷ rest) = remove_task task_id >> remove_items rest

module _ (hash : TaskName → List Value → Json → String) where
  -- The loop of `retry_all` over the items that it read.
  unfoldable pub retry_items : Dict TaskInfo → Exec TaskManager Unit
  retry_items [] = pure tt
  retry_items ((task_id, t) ∷ rest) = do
    run_task_ext hash t.task true t.args t.kwargs
    retry_items rest

  unfoldable pub retry_all : Exec TaskManager Unit
  retry_all m = retry_items (get_tasks none (some true) m) m

  -- The body of the `try` in `retry_worker`.
  unfoldable pub worker_body : Exec TaskManager Unit
  worker_body = do
    retry_all
    λ m. remove_items (get_tasks none (some false) m) m
    λ m. remove_items (get_tasks (some completed) none m) m

  -- One round of `retry_worker`: an exception is logged.
  unfoldable pub worker_round : TaskManager → TaskManager
  unfolding worker_body
  worker_round m = (worker_body m).1

  -- `retry_worker`, with what the rest of the process does while the worker sleeps, once for each
  -- round. It returns when a shutdown was requested, or at the end of the list.
  unfoldable pub retry_worker : List (TaskManager → TaskManager) → TaskManager → TaskManager
  unfolding worker_round
  retry_worker [] m = m
  retry_worker (sleep ∷ rest) m =
      let later = retry_worker rest (sleep (worker_round m)) in if m.shutting_down then m else later

-- What `start` stores for a task that was running.
abbrev pub recovered : TaskInfo → TaskInfo
recovered t =
    if ltb_ℤ (pos 0) t.retry_count
    then record t { state = failed; retry_count = t.retry_count -ℤ pos 1 }
    else record t { state = failed }

unfoldable pub recover_items : Dict TaskInfo → TaskManager → TaskManager
unfolding save_task
recover_items [] m = m
recover_items ((task_id, t) ∷ rest) m = recover_items rest (save_task task_id (recovered t) m)

unfoldable pub start : Exec TaskManager Unit
start m = (submit worker_job >> pure tt) (recover_items (get_tasks (some running) none m) m)

-- What happens between two looks of `shutdown` at its tasks: the futures that are running at the
-- first, and the callbacks that are made before the second.
pub record Poll : Type 0 where
  pub is_running : ℕ → Bool
  pub done : List (String × Outcome)

unfoldable pub run_callbacks : List (String × Outcome) → TaskManager → TaskManager
run_callbacks [] m = m
run_callbacks ((task_id, outcome) ∷ rest) m = run_callbacks rest (done_callback task_id outcome m).1

-- `to_kill` holds the same dicts as `self._tasks`: the callback of an entry in it changes it there too.
abbrev pub note_entry : String → Outcome → Entry → Option Entry → Dict Entry → Dict Entry
note_entry task_id outcome e none to_kill = to_kill
note_entry task_id outcome e (some x) to_kill =
    if x.future == e.future
    then insert task_id (record e { info = ended outcome e.info }) to_kill
    else to_kill

abbrev pub note_end : String → Outcome → Option Entry → Dict Entry → Dict Entry
note_end task_id outcome none to_kill = to_kill
note_end task_id outcome (some e) to_kill =
    note_entry task_id outcome e (lookup task_id to_kill) to_kill

-- What `run_callbacks` changes in `to_kill`.
unfoldable pub note_ends : List (String × Outcome) → Dict Entry → TaskManager → Dict Entry
note_ends [] to_kill m = to_kill
note_ends ((task_id, outcome) ∷ rest) to_kill m =
    note_ends rest (note_end task_id outcome (lookup task_id m.tasks) to_kill)
      (done_callback task_id outcome m).1

-- The `while` loop of `shutdown`: the polls end when the time is out.
unfoldable pub await_tasks : List Poll → Dict Entry → TaskManager → Dict Entry × TaskManager
await_tasks [] to_kill m = (to_kill, m)
await_tasks (p ∷ rest) to_kill m =
    let seen = filter (λ e. p.is_running e.future) m.tasks in
    let later = await_tasks rest (note_ends p.done seen m) (run_callbacks p.done m) in
    if is_empty m.tasks then (to_kill, m) else later

-- `info["state"] = FAILED; self.save_task(task_id, info)`, where the dict is still in memory, and where
-- it is not.
abbrev pub kill_held : String → Entry → TaskManager → TaskManager
kill_held task_id e m =
    let info = record (e.info) { state = failed } in
    save_task task_id info
      (record m { tasks = insert task_id (record e { info = stamped m.now info }) m.tasks })

abbrev pub kill_popped : String → Entry → TaskManager → TaskManager
kill_popped task_id e m = save_task task_id (record (e.info) { state = failed }) m

abbrev pub kill_entry : String → Entry → Option Entry → TaskManager → TaskManager
kill_entry task_id e none m = kill_popped task_id e m
kill_entry task_id e (some x) m =
    if x.future == e.future then kill_held task_id x m else kill_popped task_id e m

unfoldable pub kill_items : Dict Entry → TaskManager → TaskManager
kill_items [] m = m
kill_items ((task_id, e) ∷ rest) m =
    kill_items rest (kill_entry task_id e (lookup task_id m.tasks) m)

unfoldable pub shutdown : List Poll → TaskManager → TaskManager
shutdown polls m =
    let (to_kill, m') = await_tasks polls [] (record m { shutting_down = true }) in
    record (kill_items to_kill m') { closed = true }

-- ===== src/Tasks/Requests.antt =====
-- Requests for the same work.
use rawfile_localpv.Prelude.{
  ◌≡◌, refl, String, false, Option, none, some, List, ◌∷◌, lookup, inl, inr, Option-cases,
  lookup-insert_self, ◌∙◌,
}
use rawfile_localpv.Json.{Value, Json}
use rawfile_localpv.Errors.{ok}
use rawfile_localpv.Tasks.Defs.{
  TaskName, TaskInfo, TaskManager, stamped, running, save_task, Job, run_job,
}
use rawfile_localpv.Tasks.Manager.{new_info, run_task}
use rawfile_localpv.Tasks.Invariant.{launched, launch_open}
use rawfile_localpv.Tasks.Retry.{run_task_ext_known, run_task_ext_new}

stored_launched :
    (i : String) (info : TaskInfo) (m : TaskManager)
    → lookup i (launched i info m).store ≡ some (stamped m.now (record info { state = running }))
unfolding save_task
stored_launched i info m = lookup-insert_self i _ _

-- The executor's jobs after a request, by what the store had of it.
abbrev pub submitted : Option TaskInfo → Job → List Job → List Job
submitted none job jobs = job ∷ jobs
submitted (some t) job jobs = jobs

module _ (hash : TaskName → List Value → Json → String) (n : TaskName) (args : List Value)
    (kwargs : Json) (m : TaskManager) where
  -- While the manager accepts tasks, a request returns the task's identifier, and a second request
  -- for the same work returns the same identifier and changes nothing. The first gives the executor one
  -- job, with the request's function and arguments, if the store has no task of this identifier, and
  -- none otherwise.
  pub run_task_twice :
      m.shutting_down ≡ false
      → m.closed ≡ false
      → let (r, m') = run_task hash n args kwargs m in
        (r ≡ ok (hash n args kwargs))
        × (run_task hash n args kwargs m' ≡ (ok (hash n args kwargs), m'))
        × (m'.jobs ≡ submitted (lookup (hash n args kwargs) m.store) (run_job n args kwargs) m.jobs)
  unfolding run_task
  run_task_twice up open_now = elim (Option-cases (lookup (hash n args kwargs) m.store)) [
    | inl e ↦
        let i = hash n args kwargs in
        let info = new_info n false args kwargs none m.now in
        let first : run_task hash n args kwargs m ≡ (ok i, launched i info m) =
          run_task_ext_new hash n args kwargs m false up e ∙ launch_open i info m open_now in
        rw first (
          refl,
          run_task_ext_known hash n args kwargs (launched i info m) (unfold save_task in up)
              (stored_launched i info m),
          rw e (unfold save_task new_info in refl),
        )
    | inr (t, e) ↦
        rw (run_task_ext_known hash n args kwargs m up e)
          (refl, run_task_ext_known hash n args kwargs m up e, rw e refl)
  ]

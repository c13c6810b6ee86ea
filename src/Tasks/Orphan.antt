-- ===== src/Tasks/Orphan.antt =====
-- A task that was saved as pending and of which the executor never heard: no step of the task
-- manager changes it, neither a request for it nor a restart.
use rawfile_localpv.Prelude.{
  String, ◌≡◌, ◌≢◌, refl, ◌∙◌, subst, true, false, Option, none, some, List, [], ◌∷◌, Dict, lookup,
  erase, filter, arith, pos, ◌+ℤ◌, AllItems, AllItems-insert, AllItems-lookup, AllItems-filter,
  IsUnique, All, AllItems-erase, All-imp, inl, inr, Bool-cases, Option-cases, contains, is_empty,
  ◌==◌,
}
use rawfile_localpv.Json.{Value, Json}
use rawfile_localpv.Exec.{◌>>◌, pure}
use rawfile_localpv.Tasks.Defs.{
  TaskName, pending, running, failed, completed, TaskInfo, Entry, TaskManager, get_tasks, save_task,
  submit, worker_job,
}
use rawfile_localpv.Tasks.Manager.{Outcome, returned, raised, cancelled, new_info, launch, run_task}
use rawfile_localpv.Tasks.Worker.{
  retry_items, retry_all, remove_items, worker_round, finish, end_entry, done_callback, recovered,
  recover_items, start, Poll, run_callbacks, await_tasks, kill_items, shutdown, note_entry,
  note_end, note_ends, kill_entry,
}
use rawfile_localpv.Tasks.Invariant.{IsValid, launched, launch_open, launch_closed, room}
use rawfile_localpv.Tasks.Selected.{get_tasks-IsSelected, get_tasks-IsUnique}
use rawfile_localpv.Tasks.Retry.{
  run_task_ext_stopped, run_task_ext_known, run_task_ext_new, retry_step, All-lookup-launched,
}
use rawfile_localpv.Tasks.Frame.{Avoids, Avoids-of_lookup, lookup-save_task_ne, IsRetriable-items}
use rawfile_localpv.Tasks.Rounds.{
  IsActive, worker_round-keeps, retry_all-IsActive, remove_selected-IsActive,
}
use rawfile_localpv.Tasks.Steps.{
  Step, request, done, round, tick, stop, crash, torn, Reach, here, next, rebooted, Reach-IsValid,
  rebooted-IsValid, torn_save-IsValid,
}

module _ (k : String) (t : TaskInfo) where
  -- `t` is stored under `k`, and no entry in memory is.
  pub record IsLost (m : TaskManager) : Type 0 where
    pub present : lookup k m.store ≡ some t
    pub absent : Avoids k m.tasks

  save_task-IsLost :
      (j : String) (u : TaskInfo) (m : TaskManager) → j ≢ k → IsLost m → IsLost (save_task j u m)
  save_task-IsLost j u m h l = record {
    present = lookup-save_task_ne k j u m h ∙ l.present;
    absent = unfold save_task in l.absent;
  }

  launched-IsLost :
      (j : String) (u : TaskInfo) (m : TaskManager) → j ≢ k → IsLost m → IsLost (launched j u m)
  launched-IsLost j u m h l =
      let info = record u { state = running } in
      let saved = save_task-IsLost j info (save_task j u m) h (save_task-IsLost j u m h l) in
      record {
        present = saved.present;
        absent =
            AllItems-insert (λ i e. i ≢ k) j _ (save_task j info (save_task j u m)).tasks h
              saved.absent;
      }

  launch-IsLost :
      (j : String) (u : TaskInfo) (m : TaskManager) → j ≢ k → IsLost m → IsLost (launch j u m).1
  launch-IsLost j u m h l = elim (Bool-cases m.closed) [
    | inl e ↦ rw (launch_closed j u m e) (save_task-IsLost j u m h l)
    | inr e ↦ rw (launch_open j u m e) (launched-IsLost j u m h l)
  ]

  finish-IsLost :
      (i : String) (o : Outcome) (u : TaskInfo) (m : TaskManager)
      → i ≢ k
      → IsLost m
      → IsLost (finish i o u m).1
  finish-IsLost i returned u m h l =
      unfold finish in save_task-IsLost i (record u { state = completed }) m h l
  finish-IsLost i (raised x) u m h l =
      let count = u.retry_count +ℤ pos 1 in
      let failure = record u { state = failed; retry_count = count; last_error = some x } in
      unfold finish in save_task-IsLost i failure m h l
  finish-IsLost i cancelled u m h l = unfold finish in l

  end_entry-IsLost :
      (i : String) (o : Outcome) (e : Option Entry) (m : TaskManager)
      → lookup i m.tasks ≡ e
      → IsLost m
      → IsLost (end_entry i o e m).1
  end_entry-IsLost i o none m f l = unfold end_entry in l
  end_entry-IsLost i o (some e) m f l =
      let h : i ≢ k = AllItems-lookup (λ j x. j ≢ k) i e m.tasks l.absent f in
      let popped : IsLost (record m { tasks = erase i m.tasks }) = record {
        present = l.present;
        absent = AllItems-erase (λ j x. j ≢ k) i m.tasks l.absent;
      } in
      unfold end_entry in finish-IsLost i o e.info (record m { tasks = erase i m.tasks }) h popped

  done_callback-IsLost :
      (i : String) (o : Outcome) (m : TaskManager) → IsLost m → IsLost (done_callback i o m).1
  done_callback-IsLost i o m l =
      unfold done_callback in end_entry-IsLost i o (lookup i m.tasks) m refl l

  run_callbacks-IsLost :
      (calls : List (String × Outcome)) (m : TaskManager)
      → IsLost m
      → IsLost (run_callbacks calls m)
  unfolding run_callbacks
  run_callbacks-IsLost [] m l = l
  run_callbacks-IsLost ((i, o) ∷ rest) m l =
      run_callbacks-IsLost rest (done_callback i o m).1 (done_callback-IsLost i o m l)

  Avoids-note_end :
      (i : String) (o : Outcome) (e : Option Entry) (to_kill : Dict Entry) (m : TaskManager)
      → lookup i m.tasks ≡ e
      → Avoids k m.tasks
      → Avoids k to_kill
      → Avoids k (note_end i o e to_kill)
  Avoids-note_end i o none to_kill m f b a = a
  Avoids-note_end i o (some e) to_kill m f b a =
      Avoids-note_entry (lookup i to_kill) (AllItems-lookup (λ j x. j ≢ k) i e m.tasks b f)
    where
      Avoids-note_entry : (x : Option Entry) → i ≢ k → Avoids k (note_entry i o e x to_kill)
      Avoids-note_entry none h = a
      Avoids-note_entry (some x) h = elim (Bool-cases (x.future == e.future)) [
        | inl q ↦ rw q (AllItems-insert (λ j y. j ≢ k) i _ to_kill h a)
        | inr q ↦ rw q a
      ]

  note_ends-IsLost :
      (calls : List (String × Outcome)) (to_kill : Dict Entry) (m : TaskManager)
      → Avoids k to_kill
      → IsLost m
      → Avoids k (note_ends calls to_kill m)
  unfolding note_ends
  note_ends-IsLost [] to_kill m a l = a
  note_ends-IsLost ((i, o) ∷ rest) to_kill m a l =
      note_ends-IsLost rest (note_end i o (lookup i m.tasks) to_kill) (done_callback i o m).1
        (Avoids-note_end i o (lookup i m.tasks) to_kill m refl l.absent a)
        (done_callback-IsLost i o m l)

  await_tasks-IsLost :
      (polls : List Poll) (to_kill : Dict Entry) (m : TaskManager)
      → Avoids k to_kill
      → IsLost m
      → Avoids k (await_tasks polls to_kill m).0 × IsLost (await_tasks polls to_kill m).1
  unfolding await_tasks
  await_tasks-IsLost [] to_kill m a l = (a, l)
  await_tasks-IsLost (p ∷ rest) to_kill m a l =
      let seen = filter (λ e. p.is_running e.future) m.tasks in
      let avoids =
        All-imp _ _ seen (λ e h. h.0) (AllItems-filter (λ i e. i ≢ k) _ m.tasks l.absent) in
      let later =
        await_tasks-IsLost rest (note_ends p.done seen m) (run_callbacks p.done m)
          (note_ends-IsLost p.done seen m avoids l) (run_callbacks-IsLost p.done m l) in
      elim (Bool-cases (is_empty m.tasks)) [ inl e ↦ rw e (a, l) | inr e ↦ rw e later ]

  kill_entry-IsLost :
      (i : String) (e : Entry) (x : Option Entry) (m : TaskManager)
      → i ≢ k
      → IsLost m
      → IsLost (kill_entry i e x m)
  kill_entry-IsLost i e none m h l = save_task-IsLost i (record (e.info) { state = failed }) m h l
  kill_entry-IsLost i e (some x) m h l = elim (Bool-cases (x.future == e.future)) [
    | inl q ↦ rw q (
        save_task-IsLost i (record (x.info) { state = failed }) _ h
          (record {
            present = l.present;
            absent = AllItems-insert (λ j y. j ≢ k) i _ m.tasks h l.absent;
          }))
    | inr q ↦ rw q (save_task-IsLost i (record (e.info) { state = failed }) m h l)
  ]

  kill_items-IsLost :
      (items : Dict Entry) (m : TaskManager)
      → Avoids k items
      → IsLost m
      → IsLost (kill_items items m)
  unfolding kill_items
  kill_items-IsLost [] m a l = l
  kill_items-IsLost ((i, e) ∷ rest) m a l =
      kill_items-IsLost rest (kill_entry i e (lookup i m.tasks) m) a.1
        (kill_entry-IsLost i e (lookup i m.tasks) m a.0 l)

  shutdown-IsLost : (polls : List Poll) (m : TaskManager) → IsLost m → IsLost (shutdown polls m)
  unfolding shutdown
  shutdown-IsLost polls m l =
      let stopping = record m { shutting_down = true } in
      let (a, l') =
        await_tasks-IsLost polls [] stopping tt
          (record { present = l.present; absent = l.absent }) in
      let killed = kill_items-IsLost _ _ a l' in
      record { present = killed.present; absent = killed.absent }

  recover_items-IsLost :
      (items : Dict TaskInfo) (m : TaskManager)
      → Avoids k items
      → IsLost m
      → IsLost (recover_items items m)
  unfolding recover_items
  recover_items-IsLost [] m a l = l
  recover_items-IsLost ((i, u) ∷ rest) m a l =
      recover_items-IsLost rest (save_task i (recovered u) m) a.1
        (save_task-IsLost i (recovered u) m a.0 l)

  submit-IsLost : (m : TaskManager) → IsLost m → IsLost ((submit worker_job >> pure tt) m).1
  unfolding submit
  submit-IsLost m l = elim (Bool-cases m.closed) [
    | inl e ↦ rw e (record { present = l.present; absent = l.absent })
    | inr e ↦ rw e (record { present = l.present; absent = l.absent })
  ]

  Avoids-remove_items :
      (items : Dict TaskInfo) (m : TaskManager)
      → Avoids k m.tasks
      → Avoids k (remove_items items m).1.tasks
  unfolding remove_items
  Avoids-remove_items [] m a = a
  Avoids-remove_items ((i, u) ∷ rest) m a = elim (Bool-cases (contains i m.store)) [
    | inl e ↦ rw e (Avoids-remove_items rest (record m { store = erase i m.store }) a)
    | inr e ↦ rw e a
  ]

Avoids-save_task :
    (k i : String) (t : TaskInfo) (m : TaskManager)
    → Avoids k m.tasks
    → Avoids k (save_task i t m).tasks
unfolding save_task
Avoids-save_task k i t m a = a

Avoids-launched :
    (k i : String) (t : TaskInfo) (m : TaskManager)
    → i ≢ k
    → Avoids k m.tasks
    → Avoids k (launched i t m).tasks
unfolding save_task
Avoids-launched k i t m h a = AllItems-insert (λ j e. j ≢ k) i _ m.tasks h a

module _ (hash : TaskName → List Value → Json → String) (k : String) (t : TaskInfo)
    (waits : t.state ≡ pending) where
  abbrev IsOrphan : TaskManager → Type 0
  IsOrphan m = IsActive hash k t m × Avoids k m.tasks

  Avoids-retry_items :
      (items : Dict TaskInfo) (m : TaskManager)
      → Avoids k items
      → IsUnique items
      → AllItems (λ i u. i ≡ hash u.task u.args u.kwargs) items
      → All (λ e. lookup e.0 m.store ≡ some e.1) items
      → Avoids k m.tasks
      → Avoids k (retry_items hash items m).1.tasks
  Avoids-retry_items [] m a u h l b = unfold retry_items in b
  Avoids-retry_items ((i, x) ∷ rest) m a u h l b =
      let info = new_info x.task true x.args x.kwargs (some x) m.now in
      let later =
        Avoids-retry_items rest (launched i info m) a.1 u.1 h.1
          (All-lookup-launched hash i info rest m u.0 l.1) (Avoids-launched k i info m a.0 b) in
      elim (retry_step hash i x rest m h.0 l.0) [
        | inl e ↦ rw e b
        | inr (inl e) ↦ rw e (Avoids-save_task k i info m b)
        | inr (inr e) ↦ rw e later
      ]

  retry_all-IsOrphan : (m : TaskManager) → IsOrphan m → IsOrphan (retry_all hash m).1
  retry_all-IsOrphan m o =
      let items = get_tasks none (some true) m in
      let unique = o.0.valid.unique in
      let good = IsRetriable-items hash m o.0.valid in
      let found = All-imp _ _ items (λ e s. s.0) (get_tasks-IsSelected none (some true) m unique) in
      let avoids =
        Avoids-of_lookup k t (λ x. x.state ≡ failed) m.store items o.0.present (λ e. ground arith)
          found (All-imp _ _ items (λ e s. s.1) good) in
      (
        retry_all-IsActive hash k t (ground arith) m o.0,
        unfold retry_all in
            Avoids-retry_items items m avoids (get_tasks-IsUnique none (some true) m unique)
              (All-imp _ _ items (λ e s. s.0.0.0) good) found o.1,
      )

  worker_round-IsOrphan : (m : TaskManager) → IsOrphan m → IsOrphan (worker_round hash m)
  worker_round-IsOrphan =
      let active : room t.state ≡ 1 = ground arith in
      worker_round-keeps hash IsOrphan retry_all-IsOrphan
        (λ m o. (
          remove_selected-IsActive hash k t active none (some false) m (λ s h a e. ground arith)
              o.0,
          Avoids-remove_items k t (get_tasks none (some false) m) m o.1,
        ))
        (λ m o. (
          remove_selected-IsActive hash k t active (some completed) none m (λ s h a e. ground arith)
              o.0,
          Avoids-remove_items k t (get_tasks (some completed) none m) m o.1,
        ))

  start-IsLost : (m : TaskManager) → IsValid hash m → IsLost k t m → IsLost k t (start m).1
  start-IsLost m v l =
      let items = get_tasks (some running) none m in
      let selected = get_tasks-IsSelected (some running) none m v.unique in
      let avoids =
        Avoids-of_lookup k t (λ x. x.state ≡ running) m.store items l.present (λ e. ground arith)
          (All-imp _ _ items (λ e s. s.0) selected)
          (All-imp _ _ items (λ e s. ground (arith, s.2)) selected) in
      unfold start in submit-IsLost k t _ (recover_items-IsLost k t items m avoids l)

  run_task-IsLost :
      (n : TaskName) (args : List Value) (kwargs : Json) (m : TaskManager)
      → IsLost k t m
      → IsLost k t (run_task hash n args kwargs m).1
  run_task-IsLost n args kwargs m l =
      unfold run_task in
      elim (Bool-cases m.shutting_down) [
        | inl e ↦ rw (run_task_ext_stopped hash n args kwargs m false e) l
        | inr e ↦ elim (Option-cases (lookup (hash n args kwargs) m.store)) [
          | inl f ↦ rw (run_task_ext_new hash n args kwargs m false e f) (
              launch-IsLost k t (hash n args kwargs) (new_info n false args kwargs none m.now) m
                (λ q. cc (subst (λ i. lookup i m.store ≡ none) q f, l.present)) l)
          | inr (u, f) ↦ rw (run_task_ext_known hash n args kwargs m e f) l
        ]
      ]

  rebooted-IsLost : (m : TaskManager) → IsLost k t m → IsLost k t (rebooted m)
  rebooted-IsLost m l = record { present = l.present; absent = tt }

  Step-IsLost : {m u : TaskManager} → Step hash m u → IsValid hash m → IsLost k t m → IsLost k t u
  Step-IsLost {m} (request n args kwargs) v l = run_task-IsLost n args kwargs m l
  Step-IsLost {m} (done i o) v l = done_callback-IsLost k t i o m l
  Step-IsLost {m} round v l =
      let o = worker_round-IsOrphan m (record { valid = v; present = l.present }, l.absent) in
      record { present = o.0.present; absent = o.1 }
  Step-IsLost (tick now) v l = record { present = l.present; absent = l.absent }
  Step-IsLost {m} (stop polls) v l = shutdown-IsLost k t polls m l
  Step-IsLost {m} crash v l =
      start-IsLost (rebooted m) (rebooted-IsValid hash m v) (rebooted-IsLost m l)
  Step-IsLost {m} (torn n args kwargs fresh) v l =
      let info = new_info n false args kwargs none m.now in
      let i = hash n args kwargs in
      let other : i ≢ k = λ q. cc (subst (λ j. lookup j m.store ≡ none) q fresh, l.present) in
      let torn_save = save_task i info m in
      start-IsLost (rebooted torn_save)
        (rebooted-IsValid hash torn_save (torn_save-IsValid hash n args kwargs m v))
        (rebooted-IsLost torn_save (save_task-IsLost k t i info m other l))

  Reach-IsLost : {m u : TaskManager} → IsValid hash m → IsLost k t m → Reach hash m u → IsLost k t u
  Reach-IsLost v l here = l
  Reach-IsLost v l (next r s) = Step-IsLost s (Reach-IsValid hash r v) (Reach-IsLost v l r)

  -- A task that the store holds as pending while no entry in memory stands for it is in the store
  -- unchanged after any steps of the manager, rounds of the retry worker and restarts included, and
  -- has still no entry in memory.
  pub pending_task_is_stuck :
      {m u : TaskManager}
      → IsValid hash m
      → lookup k m.store ≡ some t
      → Avoids k m.tasks
      → Reach hash m u
      → (lookup k u.store ≡ some t) × Avoids k u.tasks
  pending_task_is_stuck v p a r =
      let lost = Reach-IsLost v (record { present = p; absent = a }) r in
      (lost.present, lost.absent)

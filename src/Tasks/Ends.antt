-- ===== src/Tasks/Ends.antt =====
-- The ends of tasks, the recovery at the start and the shutdown keep the invariant.
use rawfile_localpv.Prelude.{
  ℕ, String, ◌≡◌, refl, ◌∙◌, sym, subst, true, Option, none, some, List, [], ◌∷◌, Dict, lookup,
  insert, erase, filter, arith, AllItems-insert, ◌==◌, Bool, false, pos, ◌+ℤ◌, ◌-ℤ◌, ltb_ℤ,
  AllItems, AllItems-filter, AllItems-erase, All-imp, AllItems-lookup, inl, inr, Bool-cases,
  Option-cases, is_empty,
}
use rawfile_localpv.Json.{Value, Json}
use rawfile_localpv.Exec.{◌>>◌, pure}
use rawfile_localpv.Tasks.Defs.{
  TaskName, TaskState, pending, running, stamped, failed, completed, TaskInfo, Entry, TaskManager,
  get_tasks, save_task, submit, worker_job,
}
use rawfile_localpv.Tasks.Manager.{Outcome, returned, raised, cancelled}
use rawfile_localpv.Tasks.Worker.{
  ended, finish, end_entry, note_entry, note_end, note_ends, kill_entry, done_callback, recovered,
  recover_items, start, Poll, run_callbacks, await_tasks, kill_items, shutdown,
}
use rawfile_localpv.Tasks.Invariant.{IsTask, IsLive, IsHeld, IsValid, save_task-IsValid}
use rawfile_localpv.Tasks.Selected.{get_tasks-IsSelected}

module _ (hash : TaskName → List Value → Json → String) where
  -- What a callback makes of a task that was under way may be stored, also when it is marked as failed.
  ended-IsTask :
      (n : ℕ) (i : String) (o : Outcome) (t : TaskInfo)
      → IsTask hash n i (record t { state = running })
      → IsTask hash n i (record (ended o t) { state = failed })
  ended-IsTask n i returned t h = (h.0, ground arith, h.2)
  ended-IsTask n i (raised e) t h = (h.0, unfold ◌+ℤ◌ in ground arith, unfold ◌+ℤ◌ in ground arith)
  ended-IsTask n i cancelled t h = (h.0, ground arith, h.2)

  finish-IsValid :
      (i : String) (o : Outcome) (t : TaskInfo) (m : TaskManager)
      → IsTask hash m.max_retry i (record t { state = running })
      → IsValid hash m
      → IsValid hash (finish i o t m).1
  unfolding finish
  finish-IsValid i returned t m h v =
      save_task-IsValid hash i (ended returned t) m (ended-IsTask m.max_retry i returned t h) v
  finish-IsValid i (raised e) t m h v =
      save_task-IsValid hash i (ended (raised e) t) m (ended-IsTask m.max_retry i (raised e) t h) v
  finish-IsValid i cancelled t m h v = v

  pub done_callback-IsValid :
      (i : String) (o : Outcome) (m : TaskManager)
      → IsValid hash m
      → IsValid hash (done_callback i o m).1
  done_callback-IsValid i o m v = elim (Option-cases (lookup i m.tasks)) [
    | inl e ↦ unfold done_callback end_entry in rw e v
    | inr (e, f) ↦
        let held = AllItems-lookup _ i e m.tasks v.held f in
        let popped : IsValid hash (record m { tasks = erase i m.tasks }) = record {
          unique = v.unique;
          stored = v.stored;
          held = AllItems-erase _ i m.tasks v.held;
        } in
        unfold done_callback end_entry in
        rw f (finish-IsValid i o e.info (record m { tasks = erase i m.tasks }) held.0 popped)
  ]

  save_task_max_retry :
      (i : String) (t : TaskInfo) (m : TaskManager) → (save_task i t m).max_retry ≡ m.max_retry
  unfolding save_task
  save_task_max_retry i t m = refl

  recover_items-IsValid :
      (max_retry : ℕ) (items : Dict TaskInfo) (m : TaskManager)
      → m.max_retry ≡ max_retry
      → AllItems (λ i t. IsTask hash max_retry i (recovered t)) items
      → IsValid hash m
      → IsValid hash (recover_items items m)
  unfolding recover_items
  recover_items-IsValid n [] m e a v = v
  recover_items-IsValid n ((i, t) ∷ rest) m e a v =
      recover_items-IsValid n rest (save_task i (recovered t) m)
        (save_task_max_retry i (recovered t) m ∙ e) a.1
        (save_task-IsValid hash i (recovered t) m
          (subst (λ k. IsTask hash k i (recovered t)) (sym e) a.0) v)

  recovered-IsTask :
      (n : ℕ) (i : String) (t : TaskInfo) → IsTask hash n i t → IsTask hash n i (recovered t)
  recovered-IsTask n i t h = elim (Bool-cases (ltb_ℤ (pos 0) t.retry_count)) [
    | inl e ↦ rw e (h.0, unfold ◌-ℤ◌ in ground arith, unfold ◌-ℤ◌ in ground arith)
    | inr e ↦ rw e (h.0, ground arith, h.2)
  ]

  submit-IsValid :
      (m : TaskManager) → IsValid hash m → IsValid hash ((submit worker_job >> pure tt) m).1
  unfolding submit
  submit-IsValid m v = elim (Bool-cases m.closed) [
    | inl e ↦ rw e (record { unique = v.unique; stored = v.stored; held = v.held })
    | inr e ↦ rw e (record { unique = v.unique; stored = v.stored; held = v.held })
  ]

  pub start-IsValid : (m : TaskManager) → IsValid hash m → IsValid hash (start m).1
  start-IsValid m v =
      let items = get_tasks (some running) none m in
      let tasks =
        All-imp _ _ items
          (λ e s.
            recovered-IsTask m.max_retry e.0 e.1
              (AllItems-lookup (IsTask hash m.max_retry) e.0 e.1 m.store v.stored s.0))
          (get_tasks-IsSelected (some running) none m v.unique) in
      unfold start in
      submit-IsValid (recover_items items m)
        (recover_items-IsValid m.max_retry items m refl tasks v)

  -- The manager is valid, is shutting down, and its bound on retries is `n`.
  abbrev IsStopping : ℕ → TaskManager → Type 0
  IsStopping n m = IsValid hash m × (m.shutting_down ≡ true) × (m.max_retry ≡ n)

  end_entry-settings :
      (i : String) (o : Outcome) (e : Option Entry) (m : TaskManager)
      → ((end_entry i o e m).1.shutting_down ≡ m.shutting_down)
        × ((end_entry i o e m).1.max_retry ≡ m.max_retry)
  end_entry-settings i o none m = unfold end_entry in (refl, refl)
  end_entry-settings i returned (some e) m = unfold end_entry finish save_task in (refl, refl)
  end_entry-settings i (raised x) (some e) m = unfold end_entry finish save_task in (refl, refl)
  end_entry-settings i cancelled (some e) m = unfold end_entry finish in (refl, refl)

  done_callback-IsStopping :
      (n : ℕ) (i : String) (o : Outcome) (m : TaskManager)
      → IsStopping n m
      → IsStopping n (done_callback i o m).1
  done_callback-IsStopping n i o m v =
      let kept = end_entry-settings i o (lookup i m.tasks) m in
      (
        done_callback-IsValid i o m v.0,
        unfold done_callback in (kept.0 ∙ v.1),
        unfold done_callback in (kept.1 ∙ v.2),
      )

  -- A task that `shutdown` may mark as failed.
  abbrev IsKillable : ℕ → String → Entry → Type 0
  IsKillable n i e = IsTask hash n i (record (e.info) { state = failed })

  IsKillable-of_held :
      (n : ℕ) (b : Bool) (i : String) (e : Entry) → IsHeld hash b n i e → IsKillable n i e
  IsKillable-of_held n b i e h = (h.0.0, ground arith, h.0.2)

  note_entry-IsKillable :
      (n : ℕ) (b : Bool) (i : String) (o : Outcome) (e : Entry) (x : Option Entry)
      (to_kill : Dict Entry)
      → IsHeld hash b n i e
      → AllItems (IsKillable n) to_kill
      → AllItems (IsKillable n) (note_entry i o e x to_kill)
  note_entry-IsKillable n b i o e none to_kill h k = k
  note_entry-IsKillable n b i o e (some x) to_kill h k = elim (Bool-cases (x.future == e.future)) [
    | inl q ↦ rw q (AllItems-insert (IsKillable n) i _ to_kill (ended-IsTask n i o e.info h.0) k)
    | inr q ↦ rw q k
  ]

  note_end-IsKillable :
      (n : ℕ) (i : String) (o : Outcome) (e : Option Entry) (to_kill : Dict Entry) (m : TaskManager)
      → lookup i m.tasks ≡ e
      → IsStopping n m
      → AllItems (IsKillable n) to_kill
      → AllItems (IsKillable n) (note_end i o e to_kill)
  note_end-IsKillable n i o none to_kill m f v k = k
  note_end-IsKillable n i o (some e) to_kill m f v k =
      let held = AllItems-lookup _ i e m.tasks v.0.held f in
      note_entry-IsKillable n m.shutting_down i o e (lookup i to_kill) to_kill
        (subst (λ a. IsHeld hash m.shutting_down a i e) v.2 held) k

  callbacks-IsStopping :
      (n : ℕ) (done : List (String × Outcome)) (to_kill : Dict Entry) (m : TaskManager)
      → AllItems (IsKillable n) to_kill
      → IsStopping n m
      → AllItems (IsKillable n) (note_ends done to_kill m) × IsStopping n (run_callbacks done m)
  unfolding run_callbacks note_ends
  callbacks-IsStopping n [] to_kill m k v = (k, v)
  callbacks-IsStopping n ((i, o) ∷ rest) to_kill m k v =
      callbacks-IsStopping n rest (note_end i o (lookup i m.tasks) to_kill) (done_callback i o m).1
        (note_end-IsKillable n i o (lookup i m.tasks) to_kill m refl v k)
        (done_callback-IsStopping n i o m v)

  seen-IsKillable :
      (n : ℕ) (p : Entry → Bool) (m : TaskManager)
      → IsStopping n m
      → AllItems (IsKillable n) (filter p m.tasks)
  seen-IsKillable n p m v =
      All-imp _ _ (filter p m.tasks)
        (λ e h.
          IsKillable-of_held n m.shutting_down e.0 e.1
            (subst (λ a. IsHeld hash m.shutting_down a e.0 e.1) v.2 h.0))
        (AllItems-filter (IsHeld hash m.shutting_down m.max_retry) p m.tasks v.0.held)

  await_tasks-IsStopping :
      (n : ℕ) (polls : List Poll) (to_kill : Dict Entry) (m : TaskManager)
      → AllItems (IsKillable n) to_kill
      → IsStopping n m
      → AllItems (IsKillable n) (await_tasks polls to_kill m).0
        × IsStopping n (await_tasks polls to_kill m).1
  unfolding await_tasks
  await_tasks-IsStopping n [] to_kill m k v = (k, v)
  await_tasks-IsStopping n (p ∷ rest) to_kill m k v =
      let seen = filter (λ e. p.is_running e.future) m.tasks in
      let called = callbacks-IsStopping n p.done seen m (seen-IsKillable n _ m v) v in
      let later =
        await_tasks-IsStopping n rest (note_ends p.done seen m) (run_callbacks p.done m) called.0
          called.1 in
      elim (Bool-cases (is_empty m.tasks)) [ inl e ↦ rw e (k, v) | inr e ↦ rw e later ]

  save_task-IsStopping :
      (n : ℕ) (i : String) (t : TaskInfo) (m : TaskManager)
      → IsTask hash n i t
      → IsStopping n m
      → IsStopping n (save_task i t m)
  save_task-IsStopping n i t m h v = (
    save_task-IsValid hash i t m (subst (λ a. IsTask hash a i t) (sym v.2) h) v.0,
    unfold save_task in v.1,
    unfold save_task in v.2,
  )

  -- The entry of a task that is still in memory, marked as failed.
  marked-IsStopping :
      (n : ℕ) (i : String) (e : Entry) (t : TaskInfo) (m : TaskManager)
      → IsTask hash n i (record t { state = running })
      → t.state ≡ failed
      → IsStopping n m
      → IsStopping n (record m { tasks = insert i (record e { info = t }) m.tasks })
  marked-IsStopping n i e t m h f v = (
    record {
      unique = v.0.unique;
      stored = v.0.stored;
      held =
          AllItems-insert (IsHeld hash m.shutting_down m.max_retry) i (record e { info = t })
            m.tasks
            (
              subst (λ a. IsTask hash a i (record t { state = running })) (sym v.2) h,
              subst (λ b. IsLive b t.state) (sym v.1) (subst (λ s. IsLive true s) (sym f) tt),
            )
            v.0.held;
    },
    v.1,
    v.2,
  )

  kill_entry-IsStopping :
      (n : ℕ) (i : String) (e : Entry) (x : Option Entry) (m : TaskManager)
      → lookup i m.tasks ≡ x
      → IsKillable n i e
      → IsStopping n m
      → IsStopping n (kill_entry i e x m)
  kill_entry-IsStopping n i e none m f k v =
      save_task-IsStopping n i (record (e.info) { state = failed }) m k v
  kill_entry-IsStopping n i e (some x) m f k v = elim (Bool-cases (x.future == e.future)) [
    | inl q ↦
        let held = AllItems-lookup _ i x m.tasks v.0.held f in
        let h = subst (λ a. IsHeld hash m.shutting_down a i x) v.2 held in
        let t = record (x.info) { state = failed } in
        rw q (
          save_task-IsStopping n i t _ (IsKillable-of_held n m.shutting_down i x h)
            (marked-IsStopping n i x (stamped m.now t) m h.0 refl v))
    | inr q ↦ rw q (save_task-IsStopping n i (record (e.info) { state = failed }) m k v)
  ]

  kill_items-IsStopping :
      (n : ℕ) (items : Dict Entry) (m : TaskManager)
      → AllItems (IsKillable n) items
      → IsStopping n m
      → IsStopping n (kill_items items m)
  unfolding kill_items
  kill_items-IsStopping n [] m a v = v
  kill_items-IsStopping n ((i, e) ∷ rest) m a v =
      kill_items-IsStopping n rest (kill_entry i e (lookup i m.tasks) m) a.1
        (kill_entry-IsStopping n i e (lookup i m.tasks) m refl a.0 v)

  IsHeld-stopping :
      (b : Bool) (n : ℕ) (i : String) (e : Entry) → IsHeld hash b n i e → IsHeld hash true n i e
  IsHeld-stopping true n i e h = h
  IsHeld-stopping false n i e h = (h.0, IsLive-stopping e.info.state h.1)
    where
      IsLive-stopping : (s : TaskState) → IsLive false s → IsLive true s
      IsLive-stopping running l = tt
      IsLive-stopping failed l = elim l [ ]
      IsLive-stopping pending l = elim l [ ]
      IsLive-stopping completed l = elim l [ ]

  pub shutdown-IsValid :
      (polls : List Poll) (m : TaskManager) → IsValid hash m → IsValid hash (shutdown polls m)
  unfolding shutdown
  shutdown-IsValid polls m v =
      let stopping = record m { shutting_down = true } in
      let v' : IsValid hash stopping = record {
        unique = v.unique;
        stored = v.stored;
        held =
            All-imp _ _ m.tasks (λ e h. IsHeld-stopping m.shutting_down m.max_retry e.0 e.1 h)
              v.held;
      } in
      let (k, b) = await_tasks-IsStopping m.max_retry polls [] stopping tt (v', refl, refl) in
      let killed = (kill_items-IsStopping m.max_retry _ _ k b).0 in
      record { unique = killed.unique; stored = killed.stored; held = killed.held }

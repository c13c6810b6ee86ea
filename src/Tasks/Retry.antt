-- ===== src/Tasks/Retry.antt =====
-- `run_task_ext` and the retry worker keep the invariant.
use rawfile_localpv.Prelude.{
  ◌+◌, ◌≤◌, String, ◌≡◌, refl, subst, ◌∙◌, Bool, true, false, none, some, List, [], ◌∷◌, Dict,
  lookup, pos_part, neg_part, arith, AllItems, IsUnique, All, All-lookup-insert, lookup-filter, ◌⊎◌,
  inl, inr, Bool-cases, Option-cases,
}
use rawfile_localpv.Json.{Value, Json}
use rawfile_localpv.Errors.{ok, err, runtime_error, task_manager_shutting_down}
use rawfile_localpv.Exec.{>>=-eq_of_err, >>=-eq_of_ok}
use rawfile_localpv.Tasks.Defs.{TaskName, TaskInfo, TaskManager, get_task, save_task}
use rawfile_localpv.Tasks.Manager.{new_info, launch, run_task_ext, run_task}
use rawfile_localpv.Tasks.Worker.{retry_items}
use rawfile_localpv.Tasks.Invariant.{
  IsTask, IsValid, save_task-IsValid, launched, launch_open, launch_closed, launch-IsValid,
  launched-IsValid,
}

pub get_task-eq-lookup : (i : String) (m : TaskManager) → get_task i m ≡ lookup i m.store
unfolding get_task
get_task-eq-lookup i m = simp lookup-filter (ground arith)

module _ (hash : TaskName → List Value → Json → String) (n : TaskName) (args : List Value)
    (kwargs : Json) (m : TaskManager) where
  pub run_task_ext_stopped :
      (retry : Bool)
      → m.shutting_down ≡ true
      → run_task_ext hash n retry args kwargs m ≡ (err task_manager_shutting_down, m)
  unfolding run_task_ext
  run_task_ext_stopped retry e = rw e

  pub run_task_ext_known :
      {t : TaskInfo}
      → m.shutting_down ≡ false
      → lookup (hash n args kwargs) m.store ≡ some t
      → run_task_ext hash n false args kwargs m ≡ (ok (hash n args kwargs), m)
  run_task_ext_known e f =
      unfold run_task_ext in rw (get_task-eq-lookup (hash n args kwargs) m, f, e)

  pub run_task_ext_new :
      (retry : Bool)
      → m.shutting_down ≡ false
      → lookup (hash n args kwargs) m.store ≡ none
      → run_task_ext hash n retry args kwargs m
        ≡ launch (hash n args kwargs) (new_info n retry args kwargs none m.now) m
  run_task_ext_new true e f =
      unfold run_task_ext in rw (get_task-eq-lookup (hash n args kwargs) m, f, e)
  run_task_ext_new false e f =
      unfold run_task_ext in rw (get_task-eq-lookup (hash n args kwargs) m, f, e)

  pub run_task_ext_retried :
      {t : TaskInfo}
      → m.shutting_down ≡ false
      → lookup (hash n args kwargs) m.store ≡ some t
      → run_task_ext hash n true args kwargs m
        ≡ launch (hash n args kwargs) (new_info n true args kwargs (some t) m.now) m
  run_task_ext_retried e f =
      unfold run_task_ext in rw (get_task-eq-lookup (hash n args kwargs) m, f, e)

module _ (hash : TaskName → List Value → Json → String) where
  new_info-IsValid :
      (n : TaskName) (retry : Bool) (args : List Value) (kwargs : Json) (m : TaskManager)
      → IsValid hash m
      → IsValid hash (launch (hash n args kwargs) (new_info n retry args kwargs none m.now) m).1
  new_info-IsValid n retry args kwargs m v =
      unfold new_info in
      launch-IsValid hash (hash n args kwargs) (new_info n retry args kwargs none m.now) m
        (refl, omega arith, omega arith) (refl, omega arith, omega arith) v

  -- A request keeps the invariant.
  pub run_task-IsValid :
      (n : TaskName) (args : List Value) (kwargs : Json) (m : TaskManager)
      → IsValid hash m
      → IsValid hash (run_task hash n args kwargs m).1
  run_task-IsValid n args kwargs m v =
      unfold run_task in
      elim (Bool-cases m.shutting_down) [
        | inl e ↦ rw (run_task_ext_stopped hash n args kwargs m false e) v
        | inr e ↦ elim (Option-cases (lookup (hash n args kwargs) m.store)) [
          | inl f ↦
              rw (run_task_ext_new hash n args kwargs m false e f)
                (new_info-IsValid n false args kwargs m v)
          | inr (t, f) ↦ rw (run_task_ext_known hash n args kwargs m e f) v
        ]
      ]

  -- What `get_tasks(retriable=True)` yields.
  abbrev pub IsRetriable : TaskManager → String → TaskInfo → Type 0
  IsRetriable m i t =
      IsTask hash m.max_retry i t
      × (1 + pos_part t.retry_count ≤ m.max_retry + neg_part t.retry_count)

  launched_again-IsValid :
      (i : String) (t : TaskInfo) (m : TaskManager)
      → IsRetriable m i t
      → IsValid hash m
      → IsValid hash (launched i (new_info t.task true t.args t.kwargs (some t) m.now) m)
  launched_again-IsValid i t m r v =
      unfold new_info in
      launched-IsValid hash i (new_info t.task true t.args t.kwargs (some t) m.now) m
        (r.0.0, omega arith, r.0.2) (r.0.0, omega arith, r.0.2) v

  -- One retry, by the three ways in which it can end.
  pub retry_step :
      (i : String) (t : TaskInfo) (rest : Dict TaskInfo) (m : TaskManager)
      → i ≡ hash t.task t.args t.kwargs
      → lookup i m.store ≡ some t
      → let info = new_info t.task true t.args t.kwargs (some t) m.now in
        (retry_items hash ((i, t) ∷ rest) m ≡ (err task_manager_shutting_down, m))
        ⊎ (retry_items hash ((i, t) ∷ rest) m ≡ (err runtime_error, save_task i info m))
        ⊎ (retry_items hash ((i, t) ∷ rest) m ≡ retry_items hash rest (launched i info m))
  unfolding retry_items
  retry_step i t rest m h l =
      let same : lookup (hash t.task t.args t.kwargs) m.store ≡ some t =
        subst (λ k. lookup k m.store ≡ some t) h l in
      let go = λ (_ : String). retry_items hash rest in
      let run = run_task_ext hash t.task true t.args t.kwargs in
      let info = new_info t.task true t.args t.kwargs (some t) m.now in
      elim (Bool-cases m.shutting_down) [
        | inl e ↦
            inl (>>=-eq_of_err run go (run_task_ext_stopped hash t.task t.args t.kwargs m true e))
        | inr e ↦
            let runs : run m ≡ launch i info m =
              run_task_ext_retried hash t.task t.args t.kwargs m e same ∙ rw (← h) refl in
            elim (Bool-cases m.closed) [
              | inl c ↦ inr (inl (>>=-eq_of_err run go (runs ∙ launch_closed i info m c)))
              | inr c ↦ inr (inr (>>=-eq_of_ok run go (runs ∙ launch_open i info m c)))
            ]
      ]

  AllItems-launched :
      (i : String) (info : TaskInfo) (rest : Dict TaskInfo) (m : TaskManager)
      → AllItems (IsRetriable m) rest
      → AllItems (IsRetriable (launched i info m)) rest
  unfolding save_task
  AllItems-launched i info rest m r = r

  pub All-lookup-launched :
      (i : String) (info : TaskInfo) (rest : Dict TaskInfo) (m : TaskManager)
      → lookup i rest ≡ none
      → All (λ e. lookup e.0 m.store ≡ some e.1) rest
      → All (λ e. lookup e.0 (launched i info m).store ≡ some e.1) rest
  unfolding save_task
  All-lookup-launched i info rest m u l =
      All-lookup-insert i _ _ rest u (All-lookup-insert i _ _ rest u l)

  pub retry_items-IsValid :
      (items : Dict TaskInfo) (m : TaskManager)
      → IsUnique items
      → AllItems (IsRetriable m) items
      → All (λ e. lookup e.0 m.store ≡ some e.1) items
      → IsValid hash m
      → IsValid hash (retry_items hash items m).1
  retry_items-IsValid [] m u r l v = unfold retry_items in v
  retry_items-IsValid ((i, t) ∷ rest) m u r l v =
      let info = new_info t.task true t.args t.kwargs (some t) m.now in
      let saved : IsValid hash (save_task i info m) =
        save_task-IsValid hash i info m (unfold new_info in (r.0.0.0, omega arith, r.0.0.2)) v in
      let later : IsValid hash (retry_items hash rest (launched i info m)).1 =
        retry_items-IsValid rest (launched i info m) u.1 (AllItems-launched i info rest m r.1)
          (All-lookup-launched i info rest m u.0 l.1) (launched_again-IsValid i t m r.0 v) in
      elim (retry_step i t rest m r.0.0.0 l.0) [
        | inl e ↦ rw e v
        | inr (inl e) ↦ rw e saved
        | inr (inr e) ↦ rw e later
      ]

-- ===== src/Tasks/Rounds.antt =====
-- A round of the retry worker keeps the invariant and every task that is pending or running.
use rawfile_localpv.Prelude.{
  String, ◌≡◌, ◌∙◌, Bool, true, false, Option, none, some, List, [], ◌∷◌, Dict, lookup, erase,
  arith, erase-IsUnique, AllItems-erase, All-imp, AllItems-lookup, inl, inr, Bool-cases, contains,
}
use rawfile_localpv.Json.{Value, Json}
use rawfile_localpv.Exec.{proceed-keeps}
use rawfile_localpv.Tasks.Defs.{
  TaskName, TaskState, failed, completed, TaskInfo, TaskManager, get_tasks, retriable_test,
  state_test,
}
use rawfile_localpv.Tasks.Worker.{retry_all, remove_items, worker_round}
use rawfile_localpv.Tasks.Invariant.{IsTask, IsValid, room}
use rawfile_localpv.Tasks.Selected.{get_tasks-IsUnique, get_tasks-IsSelected}
use rawfile_localpv.Tasks.Frame.{
  Avoids-of_lookup, lookup-remove_items, lookup-retry_items, IsRetriable-items, retry_all-IsValid,
}

module _ (hash : TaskName → List Value → Json → String) where
  pub remove_items-IsValid :
      (items : Dict TaskInfo) (m : TaskManager)
      → IsValid hash m
      → IsValid hash (remove_items items m).1
  unfolding remove_items
  remove_items-IsValid [] m v = v
  remove_items-IsValid ((i, t) ∷ rest) m v = elim (Bool-cases (contains i m.store)) [
    | inl e ↦ rw e (
        remove_items-IsValid rest (record m { store = erase i m.store })
          (record {
            unique = erase-IsUnique i m.store v.unique;
            stored = AllItems-erase _ i m.store v.stored;
            held = v.held;
          }))
    | inr e ↦ rw e v
  ]

  -- A round keeps what its three loops keep.
  pub worker_round-keeps :
      (P : TaskManager → Type 0)
      → ((m : TaskManager) → P m → P (retry_all hash m).1)
      → ((m : TaskManager) → P m → P (remove_items (get_tasks none (some false) m) m).1)
      → ((m : TaskManager) → P m → P (remove_items (get_tasks (some completed) none m) m).1)
      → (m : TaskManager) → P m
      → P (worker_round hash m)
  unfolding worker_round
  worker_round-keeps P retry drop clear m h =
      proceed-keeps P _ (retry_all hash m) (retry m h) (λ _ s p.
        proceed-keeps P _ (remove_items (get_tasks none (some false) s) s) (drop s p)
          (λ _ s' q. clear s' q))

  pub worker_round-IsValid : (m : TaskManager) → IsValid hash m → IsValid hash (worker_round hash m)
  worker_round-IsValid =
      worker_round-keeps (IsValid hash) (retry_all-IsValid hash)
        (λ m. remove_items-IsValid (get_tasks none (some false) m) m)
        (λ m. remove_items-IsValid (get_tasks (some completed) none m) m)

  -- The store is valid, and the task `t`, with a run under way, is stored under `k`.
  pub record IsActive (k : String) (t : TaskInfo) (m : TaskManager) : Type 0 where
    pub valid : IsValid hash m
    pub present : lookup k m.store ≡ some t

  module _ (k : String) (t : TaskInfo) (active : room t.state ≡ 1) where
    pub retry_all-IsActive : (m : TaskManager) → IsActive k t m → IsActive k t (retry_all hash m).1
    retry_all-IsActive m h =
        let items = get_tasks none (some true) m in
        let selected = get_tasks-IsSelected none (some true) m h.valid.unique in
        let good = IsRetriable-items hash m h.valid in
        let found = All-imp _ _ items (λ e s. s.0) selected in
        let avoids =
          Avoids-of_lookup k t (λ x. x.state ≡ failed) m.store items h.present (λ e. ground arith)
            found (All-imp _ _ items (λ e s. s.1) good) in
        record {
          valid = retry_all-IsValid hash m h.valid;
          present =
              unfold retry_all in
              lookup-retry_items hash k items m avoids
                (get_tasks-IsUnique none (some true) m h.valid.unique)
                (All-imp _ _ items (λ e s. s.0.0.0) good) found
              ∙ h.present;
        }

    pub remove_selected-IsActive :
        (state : Option TaskState) (retriable : Option Bool) (m : TaskManager)
        → ((s : TaskInfo)
            → IsTask hash m.max_retry k s
            → room s.state ≡ 1
            → ¬ ((retriable_test m.max_retry retriable s ≡ true) × (state_test state s ≡ true)))
        → IsActive k t m
        → IsActive k t (remove_items (get_tasks state retriable m) m).1
    remove_selected-IsActive state retriable m other h =
        let items = get_tasks state retriable m in
        let selected = get_tasks-IsSelected state retriable m h.valid.unique in
        let task = AllItems-lookup (IsTask hash m.max_retry) k t m.store h.valid.stored h.present in
        let avoids =
          Avoids-of_lookup k t
            (λ x. (retriable_test m.max_retry retriable x ≡ true) × (state_test state x ≡ true))
            m.store items h.present (other t task active) (All-imp _ _ items (λ e s. s.0) selected)
            (All-imp _ _ items (λ e s. (s.1, s.2)) selected) in
        record {
          valid = remove_items-IsValid items m h.valid;
          present = lookup-remove_items k items m avoids ∙ h.present;
        }

    -- In a valid manager a task that is stored as pending or running is stored unchanged after a round
    -- of the retry worker, and the manager is still valid.
    pub worker_round-IsActive :
        (m : TaskManager) → IsActive k t m → IsActive k t (worker_round hash m)
    worker_round-IsActive =
        worker_round-keeps (IsActive k t) retry_all-IsActive
          (λ m. remove_selected-IsActive none (some false) m (λ s h a e. ground arith))
          (λ m. remove_selected-IsActive (some completed) none m (λ s h a e. ground arith))

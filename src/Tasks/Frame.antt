-- ===== src/Tasks/Frame.antt =====
-- Which entries of the store an operation of the task manager leaves alone.
use rawfile_localpv.Prelude.{
  String, ◌≡◌, ◌≢◌, refl, subst, ◌∙◌, true, none, some, List, [], ◌∷◌, Dict, lookup, insert, erase,
  arith, AllItems, IsUnique, All, lookup-erase, All-imp, AllItems-lookup, lookup-insert, eq_iff,
  inl, inr, Bool-cases, contains,
}
use rawfile_localpv.Json.{Value, Json}
use rawfile_localpv.Tasks.Defs.{
  TaskName, running, failed, TaskInfo, TaskManager, get_tasks, save_task,
}
use rawfile_localpv.Tasks.Manager.{new_info}
use rawfile_localpv.Tasks.Worker.{retry_items, retry_all, remove_items}
use rawfile_localpv.Tasks.Invariant.{IsTask, IsValid, launched}
use rawfile_localpv.Tasks.Selected.{get_tasks-IsUnique, get_tasks-IsSelected}
use rawfile_localpv.Tasks.Retry.{retry_items-IsValid, retry_step, IsRetriable, All-lookup-launched}

-- None of the items has the key `k`.
abbrev pub Avoids {ℓ} : {V : Type ℓ} → String → Dict V → Type 0
Avoids k d = All (λ i. i.0 ≢ k) d

pub lookup-insert_ne {ℓ} :
    {V : Type ℓ} (k j : String) (v : V) (d : Dict V) → j ≢ k → lookup k (insert j v d) ≡ lookup k d
lookup-insert_ne k j v d h = ground (arith, lookup-insert j k v d, eq_iff j k)

pub lookup-erase_ne {ℓ} :
    {V : Type ℓ} (k j : String) (d : Dict V) → j ≢ k → lookup k (erase j d) ≡ lookup k d
lookup-erase_ne k j d h = ground (arith, lookup-erase j k d, eq_iff j k)

-- The items of a part of a dict avoid a key whose entry has not the property of that part.
pub Avoids-of_lookup {ℓ} :
    {V : Type ℓ} (k : String) (v : V) (P : V → Type 0) (d items : Dict V)
    → lookup k d ≡ some v
    → ¬ P v
    → All (λ i. lookup i.0 d ≡ some i.1) items
    → All (λ i. P i.1) items
    → Avoids k items
Avoids-of_lookup k v P d [] l n a p = tt
Avoids-of_lookup k v P d ((j, w) ∷ rest) l n a p =
    (λ e. n (subst P (cc (a.0, l, e)) p.0), Avoids-of_lookup k v P d rest l n a.1 p.1)

pub lookup-save_task_ne :
    (k j : String) (t : TaskInfo) (m : TaskManager)
    → j ≢ k
    → lookup k (save_task j t m).store ≡ lookup k m.store
unfolding save_task
lookup-save_task_ne k j t m h = lookup-insert_ne k j _ m.store h

pub lookup-remove_items :
    (k : String) (items : Dict TaskInfo) (m : TaskManager)
    → Avoids k items
    → lookup k (remove_items items m).1.store ≡ lookup k m.store
unfolding remove_items
lookup-remove_items k [] m a = refl
lookup-remove_items k ((j, t) ∷ rest) m a = elim (Bool-cases (contains j m.store)) [
  | inl e ↦ rw e (
      lookup-remove_items k rest (record m { store = erase j m.store }) a.1
      ∙ lookup-erase_ne k j m.store a.0)
  | inr e ↦ rw e
]

module _ (hash : TaskName → List Value → Json → String) where
  pub lookup-retry_items :
      (k : String) (items : Dict TaskInfo) (m : TaskManager)
      → Avoids k items
      → IsUnique items
      → AllItems (λ i t. i ≡ hash t.task t.args t.kwargs) items
      → All (λ e. lookup e.0 m.store ≡ some e.1) items
      → lookup k (retry_items hash items m).1.store ≡ lookup k m.store
  lookup-retry_items k [] m a u h l = unfold retry_items in refl
  lookup-retry_items k ((i, t) ∷ rest) m a u h l =
      let info = new_info t.task true t.args t.kwargs (some t) m.now in
      let saved = lookup-save_task_ne k i info m a.0 in
      let running_info = record info { state = running } in
      let twice = lookup-save_task_ne k i running_info (save_task i info m) a.0 in
      let later =
        lookup-retry_items k rest (launched i info m) a.1 u.1 h.1
          (All-lookup-launched hash i info rest m u.0 l.1) in
      elim (retry_step hash i t rest m h.0 l.0) [
        | inl e ↦ rw e
        | inr (inl e) ↦ rw e saved
        | inr (inr e) ↦ rw e (later ∙ (twice ∙ saved))
      ]

  -- The entries that are read for a retry belong to failed tasks with retries left.
  pub IsRetriable-items :
      (m : TaskManager)
      → IsValid hash m
      → AllItems (λ i t. IsRetriable hash m i t × (t.state ≡ failed)) (get_tasks none (some true) m)
  IsRetriable-items m v =
      All-imp _ _ (get_tasks none (some true) m)
        (λ e s.
          let task = AllItems-lookup (IsTask hash m.max_retry) e.0 e.1 m.store v.stored s.0 in
          ground (arith, task, s.1))
        (get_tasks-IsSelected none (some true) m v.unique)

  pub retry_all-IsValid : (m : TaskManager) → IsValid hash m → IsValid hash (retry_all hash m).1
  retry_all-IsValid m v =
      let items = get_tasks none (some true) m in
      unfold retry_all in
      retry_items-IsValid hash items m (get_tasks-IsUnique none (some true) m v.unique)
        (All-imp _ _ items (λ e h. h.0) (IsRetriable-items m v))
        (All-imp _ _ items (λ e h. h.0) (get_tasks-IsSelected none (some true) m v.unique)) v

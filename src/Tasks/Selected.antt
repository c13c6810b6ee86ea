-- ===== src/Tasks/Selected.antt =====
-- What `get_tasks` yields: entries of the store that pass its tests.
use rawfile_localpv.Prelude.{
  String, ◌≡◌, Bool, true, Option, some, lookup, keep, arith, IsUnique, All, All-items_lookup,
  filter-IsUnique, lookup-filter, All-imp,
}
use rawfile_localpv.Tasks.Defs.{
  TaskState, TaskInfo, TaskManager, get_tasks, retriable_test, state_test,
}

keep-eq-some {ℓ} :
    {V : Type ℓ} (p : V → Bool) (o : Option V) (v : V)
    → keep p o ≡ some v
    → (o ≡ some v) × (p v ≡ true)
keep-eq-some p o v e = ground arith

module _ (state : Option TaskState) (retriable : Option Bool) (m : TaskManager) where
  pub get_tasks-IsUnique : IsUnique m.store → IsUnique (get_tasks state retriable m)
  unfolding get_tasks
  get_tasks-IsUnique u = filter-IsUnique _ _ (filter-IsUnique _ m.store u)

  abbrev pub IsSelected : String → TaskInfo → Type 0
  IsSelected i t =
      (lookup i m.store ≡ some t)
      × (retriable_test m.max_retry retriable t ≡ true)
      × (state_test state t ≡ true)

  IsSelected-of_lookup :
      (i : String) (t : TaskInfo) → lookup i (get_tasks state retriable m) ≡ some t → IsSelected i t
  unfolding get_tasks
  IsSelected-of_lookup i t e =
      let outer = keep-eq-some (state_test state) _ t (rw lookup-filter at e) in
      let inner =
        keep-eq-some (retriable_test m.max_retry retriable) _ t (rw lookup-filter at outer.0) in
      (inner.0, inner.1, outer.1)

  pub get_tasks-IsSelected :
      IsUnique m.store → All (λ e. IsSelected e.0 e.1) (get_tasks state retriable m)
  get_tasks-IsSelected u =
      All-imp _ _ (get_tasks state retriable m) (λ e h. IsSelected-of_lookup e.0 e.1 h)
        (All-items_lookup (get_tasks state retriable m) (get_tasks-IsUnique u))

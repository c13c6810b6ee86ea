-- ===== src/Tasks/Recovery.antt =====
-- What the start of the task manager makes of the store that it finds.
use rawfile_localpv.Prelude.{
  ℕ, ◌≡◌, refl, arith, ◌∙◌, String, true, Option, none, some, [], ◌∷◌, Dict, lookup, keep, IsUnique,
  eq_iff, str_eq, lookup-insert, lookup-filter, inl, inr, Bool-cases, if◌then◌else◌, subst, ap, ℤ,
  pos, negsuc, zero, suc, ◌-ℤ◌,
}
use rawfile_localpv.Exec.{◌>>◌, pure}
use rawfile_localpv.Tasks.Defs.{
  running, failed, TaskInfo, TaskManager, get_tasks, save_task, stamped, submit, is_state,
  worker_job,
}
use rawfile_localpv.Tasks.Worker.{recovered, recover_items, start}
use rawfile_localpv.Tasks.Selected.{get_tasks-IsUnique}

abbrev pub recovered_from : ℕ → Option TaskInfo → Option TaskInfo → Option TaskInfo
recovered_from now none old = old
recovered_from now (some t) old = some (stamped now (recovered t))

lookup-recover_items :
    (k : String) (items : Dict TaskInfo) (m : TaskManager)
    → IsUnique items
    → lookup k (recover_items items m).store
      ≡ recovered_from m.now (lookup k items) (lookup k m.store)
unfolding recover_items lookup
lookup-recover_items k [] m u = refl
lookup-recover_items k ((i, t) ∷ rest) m u =
    let later = lookup-recover_items k rest (save_task i (recovered t) m) u.1 in
    elim (Bool-cases (str_eq i k)) [
      | inl e ↦
          let gone : lookup k rest ≡ none =
            subst (λ x. lookup x rest ≡ none) ((eq_iff i k).0 e) u.0 in
          rw (later, gone, e) (unfold save_task in rw (lookup-insert, e))
      | inr e ↦ rw (later, e) (unfold save_task in rw (lookup-insert, e))
    ]

submit_store : (m : TaskManager) → ((submit worker_job >> pure tt) m).1.store ≡ m.store
unfolding submit
submit_store m = elim (Bool-cases m.closed) [ inl e ↦ rw e | inr e ↦ rw e ]

-- One failure less, if there are any beyond the first.
abbrev pub one_less : ℤ → ℤ
one_less (pos (suc n)) = pos n
one_less (pos zero) = pos zero
one_less (negsuc n) = negsuc n

-- What becomes at the start of the entry that a key finds.
abbrev pub restarted : ℕ → Option TaskInfo → Option TaskInfo
restarted now none = none
restarted now (some t) =
    if is_state t.state running
    then some
        (record t { state = failed; retry_count = one_less t.retry_count; saved_ts = some now })
    else some t

recovered-one_less :
    (count : ℤ) (t : TaskInfo)
    → recovered (record t { retry_count = count })
      ≡ record t { state = failed; retry_count = one_less count }
unfolding ◌-ℤ◌
recovered-one_less (pos (suc n)) t = ground arith
recovered-one_less (pos zero) t = refl
recovered-one_less (negsuc n) t = ground arith

restarted_lem :
    (now : ℕ) (o : Option TaskInfo)
    → recovered_from now (keep (λ t. is_state t.state running) (keep (λ t. true) o)) o
      ≡ restarted now o
restarted_lem now none = refl
restarted_lem now (some t) = elim (Bool-cases (is_state t.state running)) [
  | inl e ↦ rw e (ap (λ u. some (stamped now u)) (recovered-one_less t.retry_count t))
  | inr e ↦ rw e
]

-- At the start every task that the store holds as running becomes failed, with one failure less
-- counted against it if it had any beyond the first, and every other entry stays as it is.
pub lookup-start :
    (k : String) (m : TaskManager)
    → IsUnique m.store
    → lookup k (start m).1.store ≡ restarted m.now (lookup k m.store)
lookup-start k m u =
    unfold start in
    (ap (λ s. lookup k s) (submit_store (recover_items (get_tasks (some running) none m) m))
      ∙ (lookup-recover_items k (get_tasks (some running) none m) m
            (get_tasks-IsUnique (some running) none m u)
          ∙ unfold get_tasks in
            rw (lookup-filter, lookup-filter) (restarted_lem m.now (lookup k m.store))))

-- ===== src/Metrics/Unavailable.antt =====
-- rawfile/metrics.py: a storage pool whose path is not there yet.
use rawfile_localpv.Prelude.{
  ◌+◌, ◌≡◌, refl, sym, subst, arith, Bool, true, false, none, some, [], ◌∷◌, String, Dict, lookup,
  str_eq, eq_iff, Bool-cases, inl, inr,
}
use rawfile_localpv.Errors.{Result, ok, err, file_not_found}
use rawfile_localpv.Exec.{Exec, ◌>>=◌, proceed, pure}
use rawfile_localpv.Node.World.{World, StoragePool, node_at}
use rawfile_localpv.Volumes.Destroy.{VolumeStats, get_all_volumes_stats}
use rawfile_localpv.Volumes.Capacity.{get_capacity, statvfs}
use rawfile_localpv.Metrics.Collector.{
  sum_capacities, get_remaining_capacity, pool_samples, collect_rest, collect,
}
use rawfile_localpv.Metrics.Reading.{get_capacity-IsReading, get_all_volumes_stats-IsReading}

abbrev pub is_error : {A : Type 0} → Result A → Bool
is_error (ok a) = false
is_error (err e) = true

module _ {A B : Type 0} where
  fails_first :
      (f : A → Exec World B) (r : Result A × World)
      → is_error r.0 ≡ true
      → is_error (proceed f r).0 ≡ true
  fails_first f (ok a, s) h = ground (arith, h)
  fails_first f (err e, s) h = refl

  fails_later :
      (f : A → Exec World B) (w : World) (r : Result A × World)
      → r.1 ≡ w
      → ((a : A) → is_error (f a w).0 ≡ true)
      → is_error (proceed f r).0 ≡ true
  fails_later f w (ok a, s) e h = subst (λ x. is_error (f a x).0 ≡ true) (sym e) (h a)
  fails_later f w (err x, s) e h = refl

module _ (name : String) (pool : StoragePool) (w : World)
    (c : lookup name w.config.storage_pools ≡ some pool) (n : str_eq name "" ≡ false)
    (m : node_at pool.path w ≡ none) where
  get_capacity-of_missing : get_capacity (some name) w ≡ (err file_not_found, w)
  unfolding get_capacity statvfs
  get_capacity-of_missing = rw n (rw c (rw m refl))

  sum_capacities-fails :
      (pools : Dict StoragePool)
      → lookup name pools ≡ some pool
      → is_error (sum_capacities pools w).0 ≡ true
  unfolding sum_capacities lookup
  sum_capacities-fails [] h = ground (arith, h)
  sum_capacities-fails ((other, p) ∷ pools) h = elim (Bool-cases (str_eq other name)) [
    | inl e ↦ fails_first _ (get_capacity (some other) w) (
        subst (λ x. is_error (get_capacity (some x) w).0 ≡ true) (sym ((eq_iff other name).0 e))
          (rw get_capacity-of_missing refl))
    | inr e ↦
        fails_later (λ c. sum_capacities pools >>= λ rest. pure (c + rest)) w
          (get_capacity (some other) w) (get_capacity-IsReading (some other) w)
          (λ c.
            fails_first _ (sum_capacities pools w)
              (sum_capacities-fails pools (ground (arith, h, e))))
  ]

  -- The loop over the pools leaves out a configured pool whose path is not there, but the collection of
  -- the metrics raises all the same, since it asks for the capacity of every pool before the loop.
  pub collect-fails :
      (all : Dict VolumeStats)
      → (pool_samples all name pool w ≡ (ok [], w)) × (is_error (collect w).0 ≡ true)
  unfolding collect statvfs get_remaining_capacity
  collect-fails all = (
    rw m refl,
    fails_later (λ all. get_remaining_capacity >>= collect_rest all) w (get_all_volumes_stats w)
        (get_all_volumes_stats-IsReading w)
        (λ all.
          fails_first (collect_rest all) (get_remaining_capacity w)
            (sum_capacities-fails w.config.storage_pools c)),
  )

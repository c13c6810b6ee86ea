-- ===== src/Metrics/Totals.antt =====
-- rawfile/metrics.py: how the figures of the pools and those of the volumes hang together.
use rawfile_localpv.Prelude.{
  ℕ, ◌+◌, ◌≡◌, refl, sym, ap, ◌∙◌, subst, arith, Bool, true, false, Option, none, some, List, [],
  ◌∷◌, ◌++◌, String, Dict, lookup, contains, if◌then◌else◌, str_eq, eq_iff, IsUnique,
}
use rawfile_localpv.Errors.{Result, ok, err}
use rawfile_localpv.Exec.{Exec, ◌>>=◌, proceed, pure, gets}
use rawfile_localpv.Node.Files.{Node}
use rawfile_localpv.Node.World.{World, StoragePool, StatVfs, node_at}
use rawfile_localpv.Volumes.Destroy.{VolumeStats, get_all_volumes_stats}
use rawfile_localpv.Volumes.Capacity.{get_capacity, statvfs}
use rawfile_localpv.Metrics.Collector.{
  Metrics, PoolMetrics, VolumeMetrics, get_remaining_capacity, volume_metrics, volume_sample, one,
  total_of, pool_metrics, pool_samples, collect_pools, collect_rest, collect,
}
use rawfile_localpv.Metrics.Reading.{
  get_capacity-IsReading, get_remaining_capacity-IsReading, get_all_volumes_stats-IsReading,
}

-- The sum of a figure over the pools that are reported.
abbrev pub sum_pools : (PoolMetrics → ℕ) → List PoolMetrics → ℕ
sum_pools f [] = 0
sum_pools f (p ∷ ps) = f p + sum_pools f ps

-- The sum of a figure over the volumes that are reported, of those whose pool is configured.
abbrev pub sum_configured : (VolumeMetrics → ℕ) → Dict StoragePool → List VolumeMetrics → ℕ
sum_configured f pools [] = 0
sum_configured f pools (v ∷ vs) =
    if contains v.pool pools then f v + sum_configured f pools vs else sum_configured f pools vs

-- The path of every pool is there.
abbrev pub AllReachable : Dict StoragePool → World → Type 0
AllReachable [] w = Unit
AllReachable ((_, pool) ∷ pools) w =
    ((n : Node) × (node_at pool.path w ≡ some n)) × AllReachable pools w

sum_pools-append :
    (f : PoolMetrics → ℕ) (a b : List PoolMetrics)
    → sum_pools f (a ++ b) ≡ sum_pools f a + sum_pools f b
sum_pools-append f [] b = omega arith
sum_pools-append f (p ∷ ps) b = omega (arith, sum_pools-append f ps b)

-- The sum of what the pools of a configuration total.
abbrev sum_totals : (VolumeStats → ℕ) → Dict StoragePool → Dict VolumeStats → ℕ
sum_totals f [] all = 0
sum_totals f ((name, _) ∷ pools) all = total_of f name all + sum_totals f pools all

abbrev sum_stats : (VolumeStats → ℕ) → Dict StoragePool → Dict VolumeStats → ℕ
sum_stats f pools [] = 0
sum_stats f pools ((_, s) ∷ d) =
    if contains s.pool pools then f s + sum_stats f pools d else sum_stats f pools d

sum_stats-nil : (f : VolumeStats → ℕ) (d : Dict VolumeStats) → sum_stats f [] d ≡ 0
unfolding lookup
sum_stats-nil f [] = refl
sum_stats-nil f ((_, s) ∷ d) = sum_stats-nil f d

contains-if :
    (b : Bool) (p : StoragePool) (o : Option StoragePool)
    → ◌≡◌ {A = Bool}
        (elim (if b then some p else o) [ none ↦ false | some _ ↦ true ])
        (if b then true else (elim o [ none ↦ false | some _ ↦ true ]))
contains-if true p o = refl
contains-if false p o = refl

contains-cons :
    (k name : String) (pool : StoragePool) (pools : Dict StoragePool)
    → contains k ((name, pool) ∷ pools) ≡ (if str_eq name k then true else contains k pools)
unfolding lookup
contains-cons k name pool pools = contains-if (str_eq name k) pool (lookup k pools)

not_contained :
    (k : String) (pools : Dict StoragePool) → lookup k pools ≡ none → contains k pools ≡ false
not_contained k pools e = ap (λ o. elim o [ none ↦ false | some _ ↦ true ]) e

-- What one volume adds: `a` tells whether it is in the new pool, `b` whether in an old one.
volume_step :
    (a b c : Bool) (n x t r : ℕ)
    → x ≡ t + r
    → c ≡ (if a then true else b)
    → (a ≡ true → b ≡ false)
    → (if c then n + x else x) ≡ (if a then n + t else t) + (if b then n + r else r)
volume_step a b c n x t r h e k = ground (arith, h, e, k)

-- A pool whose name is new adds what it totals.
sum_stats-cons :
    (f : VolumeStats → ℕ) (name : String) (pool : StoragePool) (pools : Dict StoragePool)
    (d : Dict VolumeStats)
    → lookup name pools ≡ none
    → sum_stats f ((name, pool) ∷ pools) d ≡ total_of f name d + sum_stats f pools d
unfolding total_of lookup
sum_stats-cons f name pool pools [] u = omega arith
sum_stats-cons f name pool pools ((v, s) ∷ d) u =
    volume_step (str_eq s.pool name) (contains s.pool pools)
      (contains s.pool ((name, pool) ∷ pools)) (f s) _ _ _ (sum_stats-cons f name pool pools d u)
      (contains-cons s.pool name pool pools
        ∙ ap (λ b. if b then true else contains s.pool pools)
            (ground (arith, eq_iff name s.pool, eq_iff s.pool name)))
      (λ e.
        not_contained s.pool pools
          (subst (λ x. lookup x pools ≡ none) (sym ((eq_iff s.pool name).0 e)) u))

sum_totals-eq :
    (f : VolumeStats → ℕ) (pools : Dict StoragePool) (d : Dict VolumeStats)
    → IsUnique pools
    → sum_totals f pools d ≡ sum_stats f pools d
sum_totals-eq f [] d u = sym (sum_stats-nil f d)
sum_totals-eq f ((name, pool) ∷ pools) d u =
    ap (λ n. total_of f name d + n) (sum_totals-eq f pools d u.1)
    ∙ sym (sum_stats-cons f name pool pools d u.0)

-- What the samples of some pools add up to, if the call does not raise; the state is kept.
abbrev Adds : (PoolMetrics → ℕ) → ℕ → World → Result (List PoolMetrics) × World → Type 0
Adds g n w (ok ps, s) = (sum_pools g ps ≡ n) × (s ≡ w)
Adds g n w (err e, s) = Unit

module _ (f : VolumeStats → ℕ) (g : PoolMetrics → ℕ)
    (fits : (all : Dict VolumeStats) (name : String) (pool : StoragePool) (stats : StatVfs)
        (d : String) (n : ℕ)
      → g (pool_metrics all name pool stats d n) ≡ total_of f name all) where
  sample-Adds :
      (all : Dict VolumeStats) (name : String) (pool : StoragePool) (stats : StatVfs) (w : World)
      (r : Result ℕ × World)
      → r.1 ≡ w
      → Adds g (total_of f name all) w (
          proceed
            (λ remaining.
              gets (λ w. pool_metrics all name pool stats w.config.default_pool remaining ∷ []))
            r)
  sample-Adds all name pool stats w (ok n, s) h =
      (omega (arith, fits all name pool stats s.config.default_pool n), h)
  sample-Adds all name pool stats w (err e, s) h = tt

  pool_samples-Adds :
      (all : Dict VolumeStats) (name : String) (pool : StoragePool) (w : World) (n : Node)
      → node_at pool.path w ≡ some n
      → Adds g (total_of f name all) w (pool_samples all name pool w)
  unfolding statvfs
  pool_samples-Adds all name pool w n e = rw e (
      sample-Adds all name pool (w.host.statvfs pool.path) w (get_capacity (some name) w)
        (get_capacity-IsReading (some name) w))

  append-Adds :
      (a b : ℕ) (w : World) (ps : List PoolMetrics) (r : Result (List PoolMetrics) × World)
      → sum_pools g ps ≡ a
      → Adds g b w r
      → Adds g (a + b) w (proceed (λ rest. pure (ps ++ rest)) r)
  append-Adds a b w ps (ok qs, s) h k = (omega (arith, sum_pools-append g ps qs, h, k.0), k.1)
  append-Adds a b w ps (err e, s) h k = tt

  then-Adds :
      (a b : ℕ) (w : World) (m : Exec World (List PoolMetrics))
      (r : Result (List PoolMetrics) × World)
      → Adds g a w r
      → Adds g b w (m w)
      → Adds g (a + b) w (proceed (λ here. m >>= λ rest. pure (here ++ rest)) r)
  then-Adds a b w m (ok ps, s) h k =
      subst (λ x. Adds g (a + b) w ((m >>= λ rest. pure (ps ++ rest)) x)) (sym h.1)
        (append-Adds a b w ps (m w) h.0 k)
  then-Adds a b w m (err e, s) h k = tt

  collect_pools-Adds :
      (all : Dict VolumeStats) (pools : Dict StoragePool) (w : World)
      → AllReachable pools w
      → Adds g (sum_totals f pools all) w (collect_pools all pools w)
  unfolding collect_pools
  collect_pools-Adds all [] w h = (refl, refl)
  collect_pools-Adds all ((name, pool) ∷ pools) w h =
      then-Adds (total_of f name all) (sum_totals f pools all) w (collect_pools all pools)
        (pool_samples all name pool w) (pool_samples-Adds all name pool w h.0.0 h.0.1)
        (collect_pools-Adds all pools w h.1)

sum_volumes :
    (f : VolumeStats → ℕ) (h : VolumeMetrics → ℕ)
    (same : (v : String) (s : VolumeStats) → h (volume_sample v s) ≡ f s) (pools : Dict StoragePool)
    (d : Dict VolumeStats)
    → sum_stats f pools d ≡ sum_configured h pools (volume_metrics d)
sum_volumes f h same pools [] = refl
sum_volumes f h same pools ((v, s) ∷ d) = rw (sum_volumes f h same pools d) (rw (same v s) refl)

-- The figures of the pools are the sums of those of the volumes in them.
abbrev pub IsConsistent : Dict StoragePool → Result Metrics × World → Type 0
IsConsistent pools (ok m, s) =
    (sum_pools (λ p. p.volume_count) m.pools ≡ sum_configured (λ _. 1) pools m.volumes)
    × (sum_pools (λ p. p.volumes_physical) m.pools
        ≡ sum_configured (λ v. v.physical) pools m.volumes)
    × (sum_pools (λ p. p.volumes_logical) m.pools ≡ sum_configured (λ v. v.total) pools m.volumes)
IsConsistent pools (err e, s) = Unit

module _ (pools : Dict StoragePool) (w : World) (u : IsUnique pools) where
  last-IsConsistent :
      (all : Dict VolumeStats) (n : ℕ) (r : Result (List PoolMetrics) × World)
      → Adds (λ p. p.volume_count) (sum_totals one pools all) w r
      → Adds (λ p. p.volumes_physical) (sum_totals (λ s. s.physical_size) pools all) w r
      → Adds (λ p. p.volumes_logical) (sum_totals (λ s. s.logical_size) pools all) w r
      → IsConsistent pools (
          proceed
            (λ ps.
              pure (record { remaining_capacity = n; volumes = volume_metrics all; pools = ps }))
            r)
  last-IsConsistent all n (ok ps, s) a b c = (
    a.0 ∙ sum_totals-eq one pools all u ∙ sum_volumes one (λ _. 1) (λ v s. refl) pools all,
    b.0
        ∙ sum_totals-eq (λ s. s.physical_size) pools all u
        ∙ sum_volumes _ (λ v. v.physical) (λ v s. refl) pools all,
    c.0
        ∙ sum_totals-eq (λ s. s.logical_size) pools all u
        ∙ sum_volumes _ (λ v. v.total) (λ v s. refl) pools all,
  )
  last-IsConsistent all n (err e, s) a b c = tt

  rest-IsConsistent :
      (all : Dict VolumeStats) (r : Result ℕ × World)
      → w.config.storage_pools ≡ pools
      → AllReachable pools w
      → r.1 ≡ w
      → IsConsistent pools (proceed (collect_rest all) r)
  rest-IsConsistent all (ok n, s) p h e =
      subst (λ x. IsConsistent pools (collect_rest all n x)) (sym e)
        (subst
          (λ l. IsConsistent pools (
            proceed
              (λ ps.
                pure (record { remaining_capacity = n; volumes = volume_metrics all; pools = ps }))
              (collect_pools all l w)))
          (sym p)
          (last-IsConsistent all n (collect_pools all pools w)
            (collect_pools-Adds one (λ p. p.volume_count) (λ _ _ _ _ _ _. refl) all pools w h)
            (collect_pools-Adds (λ s. s.physical_size) (λ p. p.volumes_physical)
              (λ _ _ _ _ _ _. refl) all pools w h)
            (collect_pools-Adds (λ s. s.logical_size) (λ p. p.volumes_logical) (λ _ _ _ _ _ _. refl)
              all pools w h)))
  rest-IsConsistent all (err e, s) p h x = tt

  all-IsConsistent :
      (r : Result (Dict VolumeStats) × World)
      → w.config.storage_pools ≡ pools
      → AllReachable pools w
      → r.1 ≡ w
      → IsConsistent pools (proceed (λ all. get_remaining_capacity >>= collect_rest all) r)
  all-IsConsistent (ok all, s) p h e =
      rest-IsConsistent all (get_remaining_capacity s) p h (get_remaining_capacity-IsReading s ∙ e)
  all-IsConsistent (err x, s) p h e = tt

-- Where the paths of all configured pools are there, a collection of the metrics that does not raise
-- reports pools whose numbers of volumes, physical sizes and logical sizes add up to those of the
-- volumes that it reports in configured pools.
pub collect-IsConsistent :
    (w : World)
    → IsUnique w.config.storage_pools
    → AllReachable w.config.storage_pools w
    → IsConsistent w.config.storage_pools (collect w)
unfolding collect
collect-IsConsistent w u h =
    all-IsConsistent w.config.storage_pools w u (get_all_volumes_stats w) refl h
      (get_all_volumes_stats-IsReading w)

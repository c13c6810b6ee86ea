-- ===== src/Startup/Ready.antt =====
-- rawfile/rawfile.py: what the start of a node's driver leaves when it returns.
use text.Mathlib.Text.{starts_with}
use rawfile_localpv.Prelude.{
  ℕ, ◌≡◌, refl, sym, arith, subst, Bool, true, false, not, ◌||◌, ◌&&◌, some, List, [], ◌∷◌, String,
  str_eq, eq_iff, if◌then◌else◌, Bool-cases, inl, inr, All, lookup,
}
use rawfile_localpv.Paths.{FilePath, root, child, path_eq}
use rawfile_localpv.Errors.{Result, ok, err}
use rawfile_localpv.Node.Files.{Files, find}
use rawfile_localpv.Node.World.{Config, StoragePool, World, is_some}
use rawfile_localpv.Volumes.Destroy.{for_each, volumes_of, migrate_all_volume_schemas}
use rawfile_localpv.Startup.Keeping.{Keeps}
use rawfile_localpv.Startup.Latest.{
  IsLatest, IsLatest-Keeps, Ends, Ends-bind, Ends-and, Ends-Keeps,
  migrate_all_volume_schemas-AllLatest,
}
use rawfile_localpv.Startup.Moved.{
  old_file, has, IsPlaced, IsStored, Keeps-IsPlaced, move_metadata-IsPlaced, move_metadata-IsStored,
  move_metadata-keeps,
}
use rawfile_localpv.Startup.Checks.{
  IsDistinct, Fresh, devices, check_devices-IsDistinct, check_directories-IsKeeping,
  set_cow_support-IsKeeping, migrate_tasks_file_path-IsKeeping,
}
use rawfile_localpv.Startup.Preflight.{
  pool_paths, move_metadata, migrate_metadata_dir, migrate_tasks_file_path, set_cow_support,
  check_devices, check_pools, migrate_all, preflight,
}

abbrev is_in : String → List String → Bool
is_in v [] = false
is_in v (u ∷ us) = str_eq u v || is_in v us

All-is_in :
    (P : String → Type 0) (v : String) (us : List String) → All P us → is_in v us ≡ true → P v
All-is_in P v [] a h = cc
All-is_in P v (u ∷ us) a h = elim (Bool-cases (str_eq u v)) [
  | inl y ↦ subst P ((eq_iff u v).0 y) a.0
  | inr y ↦ All-is_in P v us a.1 (rw y at h)
]

is_in_if :
    (v u : String) (us : List String) (c : Bool)
    → is_in v us ≡ true
    → is_in v (if c then u ∷ us else us) ≡ true
is_in_if v u us true h = ground (arith, h)
is_in_if v u us false h = h

-- A folder with metadata is found, unless it is hidden.
volumes_of-is_in :
    (d : FilePath) (v : String) (fs : Files)
    → starts_with v "." ≡ false
    → is_some (find (old_file d v) fs) ≡ true
    → is_in v (volumes_of d fs) ≡ true
unfolding volumes_of find
volumes_of-is_in d v [] hidden h = cc
volumes_of-is_in d v ((root, x) ∷ fs) hidden h = volumes_of-is_in d v fs hidden h
volumes_of-is_in d v ((child root n, x) ∷ fs) hidden h =
    volumes_of-is_in d v fs hidden (elim (Bool-cases (path_eq (child root n) (old_file d v))) [
      | inl y ↦ let no : str_eq n "disk.meta" && false ≡ true = y in ground (arith, no)
      | inr y ↦ rw y at h
    ])
volumes_of-is_in d v ((child (child q u) n, x) ∷ fs) hidden h =
    elim (Bool-cases (path_eq (child (child q u) n) (old_file d v))) [
      | inl y ↦
          let e : str_eq n "disk.meta" && (str_eq u v && path_eq q d) ≡ true = y in
          let same : str_eq u v ≡ true = ground (arith, e) in
          let shown : starts_with u "." ≡ false =
            subst (λ x. starts_with x "." ≡ false) (sym ((eq_iff u v).0 same)) hidden in
          let c : path_eq q d && str_eq n "disk.meta" && not (starts_with u ".") ≡ true =
            ground (arith, e, shown) in
          rw c (rw same refl)
      | inr y ↦ is_in_if v u (volumes_of d fs) _ (volumes_of-is_in d v fs hidden (rw y at h))
    ]

module _ (md pool : FilePath) (apart : path_eq pool md ≡ false) where
  moved_list-IsStored :
      (v : String) (us : List String) (w : World)
      → IsStored md v w
      → Ends (IsStored md v) (for_each (move_metadata pool) us w)
  moved_list-IsStored v [] w h = h
  moved_list-IsStored v (u ∷ us) w h =
      Ends-bind (IsStored md v) (IsStored md v) (λ _. for_each (move_metadata pool) us)
        (move_metadata pool u w) (move_metadata-keeps md pool apart u v w h)
        (λ _ w k. moved_list-IsStored v us w k)

  moved_list-lands :
      (v : String) (us : List String) (w : World)
      → is_in v us ≡ true
      → IsPlaced md pool v w
      → Ends (IsStored md v) (for_each (move_metadata pool) us w)
  moved_list-lands v [] w i h = cc
  moved_list-lands v (u ∷ us) w i h = elim (Bool-cases (str_eq u v)) [
    | inl y ↦
        Ends-bind (IsStored md v) (IsStored md v) (λ _. for_each (move_metadata pool) us)
          (move_metadata pool u w)
          (subst (λ x. Ends (IsStored md v) (move_metadata pool x w)) (sym ((eq_iff u v).0 y))
            (move_metadata-IsStored md pool apart v w h))
          (λ _ w k. moved_list-IsStored v us w k)
    | inr y ↦
        Ends-bind (IsPlaced md pool v) (IsStored md v) (λ _. for_each (move_metadata pool) us)
          (move_metadata pool u w) (move_metadata-IsPlaced md pool apart u v w h)
          (λ _ w k. moved_list-lands v us w (rw y at i) k)
  ]

  -- The move of the old files ends with the metadata of every volume in their folder.
  migrate_metadata_dir-IsStored :
      (c : Config) (w : World) (v : String) {p : StoragePool}
      → lookup c.default_pool c.storage_pools ≡ some p
      → p.path ≡ pool
      → starts_with v "." ≡ false
      → IsPlaced md pool v w
      → Ends (IsStored md v) (migrate_metadata_dir c w)
  unfolding migrate_metadata_dir
  migrate_metadata_dir-IsStored c w v e f hidden h =
      rw (e, f)
        (elim (Bool-cases (has pool v w)) [
          | inl y ↦
              moved_list-lands v (volumes_of pool w.files) w
                (volumes_of-is_in pool v w.files hidden y) h
          | inr y ↦ moved_list-IsStored v (volumes_of pool w.files) w (h.0, ground (arith, h.1, y))
        ])

module _ {A : Type 0} where
  Ends-imp :
      (P Q : World → Type 0) (r : Result A × World)
      → Ends P r
      → ((w : World) → P w → Q w)
      → Ends Q r
  Ends-imp P Q (ok a, w) p h = h w p
  Ends-imp P Q (err e, w) p h = tt

  -- What each of many ends with, all of them end with.
  Ends-forall :
      (H : String → Type 0) (P : String → World → Type 0) (r : Result A × World)
      → ((v : String) → H v → Ends (P v) r)
      → Ends (λ w. (v : String) → H v → P v w) r
  Ends-forall H P (ok a, w) h = h
  Ends-forall H P (err e, w) h = tt

Ends-const : {A : Type 0} (D : Type 0) → D → (r : Result A × World) → Ends (λ _. D) r
Ends-const T d (ok a, w) = d
Ends-const T d (err e, w) = tt

-- The metadata are migrated where they are stored, and the rest of the start leaves them there.
migrate_all-IsLatest :
    (c : Config) (md : FilePath) (v : String) (w : World)
    → starts_with v "." ≡ false
    → IsStored md v w
    → Ends (IsLatest v) (migrate_all c w)
migrate_all-IsLatest c md v w hidden (e, h) =
    let tasks = migrate_tasks_file_path (child c.metadata_dir "tasks.json") c in
    let found : is_in v (volumes_of w.config.metadata_dir w.files) ≡ true =
      volumes_of-is_in w.config.metadata_dir v w.files hidden (rw e h) in
    Ends-bind (IsLatest v) (IsLatest v) (λ _. set_cow_support c) _
      (Ends-bind (IsLatest v) (IsLatest v) (λ _. tasks) (migrate_all_volume_schemas w)
        (Ends-imp _ (IsLatest v) _ (migrate_all_volume_schemas-AllLatest w)
          (λ x a. All-is_in (λ u. IsLatest u x) v _ a found))
        (λ _ x l.
          Ends-Keeps (IsLatest v) x (tasks x)
            (migrate_tasks_file_path-IsKeeping (child c.metadata_dir "tasks.json") c refl x)
            (λ y k. IsLatest-Keeps v x y k l)))
      (λ _ x l.
        Ends-Keeps (IsLatest v) x (set_cow_support c x) (set_cow_support-IsKeeping c x)
          (λ y k. IsLatest-Keeps v x y k l))

module _ (accessible : FilePath → World → Bool) (dev : FilePath → ℕ) where
  -- The checks that pass have found the pools on different file systems.
  check_pools-Ends :
      (c : Config) (w : World)
      → Ends
          (λ w'. Keeps w w' × IsDistinct (devices dev (pool_paths c.storage_pools)))
          (check_pools accessible dev c w)
  check_pools-Ends c w =
      Ends-bind (Keeps w) _ (λ _. check_devices accessible dev [] (pool_paths c.storage_pools)) _
        (Ends-Keeps (Keeps w) w _
          (check_directories-IsKeeping accessible dev (c.metadata_dir ∷ pool_paths c.storage_pools)
            w)
          (λ w' k. k))
        (λ _ w' k.
          checked w' k (check_devices accessible dev [] (pool_paths c.storage_pools) w')
            (check_devices-IsDistinct accessible dev [] (pool_paths c.storage_pools) w'))
    where
      checked :
          (w' : World)
          → Keeps w w'
          → (r : Result Unit × World)
          → Ends
              (λ x.
                (x ≡ w')
                × Fresh [] (devices dev (pool_paths c.storage_pools))
                × IsDistinct (devices dev (pool_paths c.storage_pools)))
              r
          → Ends (λ x. Keeps w x × IsDistinct (devices dev (pool_paths c.storage_pools))) r
      checked w' k (ok a, x) (e, f, d) = (subst (Keeps w) (sym e) k, d)
      checked w' k (err e, x) h = tt

  preflight-IsDistinct :
      (w : World)
      → Ends
          (λ _. IsDistinct (devices dev (pool_paths w.config.storage_pools)))
          (preflight accessible dev w)
  unfolding preflight
  preflight-IsDistinct w =
      let T = IsDistinct (devices dev (pool_paths w.config.storage_pools)) in
      let D = λ (x : World). T in
      Ends-bind D D (λ _. migrate_all w.config) _
        (Ends-bind D D (λ _. migrate_metadata_dir w.config) (check_pools accessible dev w.config w)
          (Ends-imp _ D _ (check_pools-Ends w.config w) (λ x k. k.1))
          (λ _ x d. Ends-const T d (migrate_metadata_dir w.config x)))
        (λ _ x d. Ends-const T d (migrate_all w.config x))

  preflight-IsLatest :
      (w : World) (v : String) {p : StoragePool}
      → lookup w.config.default_pool w.config.storage_pools ≡ some p
      → path_eq p.path w.config.metadata_dir ≡ false
      → starts_with v "." ≡ false
      → (has w.config.metadata_dir v w || has p.path v w) ≡ true
      → Ends (IsLatest v) (preflight accessible dev w)
  unfolding preflight
  preflight-IsLatest w v {p} e apart hidden h =
      let md = w.config.metadata_dir in
      Ends-bind (IsStored md v) (IsLatest v) (λ _. migrate_all w.config) _
        (Ends-bind (IsPlaced md p.path v) (IsStored md v) (λ _. migrate_metadata_dir w.config)
          (check_pools accessible dev w.config w)
          (Ends-imp _ (IsPlaced md p.path v) _ (check_pools-Ends w.config w)
            (λ x k. Keeps-IsPlaced md p.path apart v w x k.0 (refl, h)))
          (λ _ x k. migrate_metadata_dir-IsStored md p.path apart w.config x v e refl hidden k))
        (λ _ x k. migrate_all-IsLatest w.config md v x hidden k)

  -- When the start of a node's driver returns, the storage pools are on different file systems, and
  -- each volume whose metadata were in the folder of the metadata or, from an older release, in the
  -- default pool has them in the folder of the metadata, in the latest version. The default pool is
  -- another folder than that of the metadata, and the names of volumes do not begin with a dot.
  pub preflight-IsReady :
      (w : World) {p : StoragePool}
      → lookup w.config.default_pool w.config.storage_pools ≡ some p
      → path_eq p.path w.config.metadata_dir ≡ false
      → Ends
          (λ w'.
            IsDistinct (devices dev (pool_paths w.config.storage_pools))
            × ((v : String)
                → (starts_with v "." ≡ false)
                  × ((has w.config.metadata_dir v w || has p.path v w) ≡ true)
                → IsLatest v w'))
          (preflight accessible dev w)
  preflight-IsReady w {p} e apart =
      let H = λ (v : String).
        (starts_with v "." ≡ false) × ((has w.config.metadata_dir v w || has p.path v w) ≡ true) in
      Ends-and _ (λ w'. (v : String) → H v → IsLatest v w') (preflight accessible dev w)
        (preflight-IsDistinct w)
        (Ends-forall H IsLatest (preflight accessible dev w)
          (λ v h. preflight-IsLatest w v e apart h.0 h.1))

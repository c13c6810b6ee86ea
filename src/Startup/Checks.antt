-- ===== src/Startup/Checks.antt =====
-- rawfile/rawfile.py: the parts of the start that leave the metadata as they are, and the check of the devices.
use rawfile_localpv.Prelude.{
  ℕ, ◌≡◌, refl, arith, Bool, true, false, not, Option, none, some, List, [], ◌∷◌, str_eq,
  if◌then◌else◌, Bool-cases, inl, inr, All, lookup, Dict,
}
use rawfile_localpv.Paths.{FilePath, child, file_name}
use rawfile_localpv.Errors.{Exception, Result, ok, err, file_not_found, runtime_error, key_error}
use rawfile_localpv.Exec.{Exec, ◌>>=◌, ◌>>◌, pure, raise_if, modify, or_raise}
use rawfile_localpv.Node.World.{
  Config, StoragePool, World, node_at, is_some, is_dir, exists, mkdir_parents,
}
use rawfile_localpv.Node.Metadata.{is_cow_supported}
use rawfile_localpv.Volumes.Destroy.{for_each}
use rawfile_localpv.Startup.Keeping.{
  Keeps, Keeps-refl, IsKeeping, bind-IsKeeping, if-IsKeeping, mkdir_parents-IsKeeping,
  replace-IsKeeping, is_cow_supported-IsKeeping,
}
use rawfile_localpv.Startup.Latest.{Ends}
use rawfile_localpv.Startup.Preflight.{
  any_number, move, default_path, migrate_tasks_file_path, cow_support, set_cow_support,
  create_and_check_directory, check_devices,
}

-- No number stands twice.
abbrev pub IsDistinct : List ℕ → Type 0
IsDistinct [] = Unit
IsDistinct (n ∷ ns) = (any_number n ns ≡ false) × IsDistinct ns

abbrev pub devices : (FilePath → ℕ) → List FilePath → List ℕ
devices dev [] = []
devices dev (p ∷ ps) = dev p ∷ devices dev ps

abbrev pub Fresh : List ℕ → List ℕ → Type 0
Fresh devs = All (λ n. any_number n devs ≡ false)

Fresh-not_in : (d : ℕ) (devs ns : List ℕ) → Fresh (d ∷ devs) ns → any_number d ns ≡ false
Fresh-not_in d devs [] h = refl
Fresh-not_in d devs (n ∷ ns) h = let rest = Fresh-not_in d devs ns h.1 in ground (arith, h.0, rest)

Fresh-tail : (d : ℕ) (devs ns : List ℕ) → Fresh (d ∷ devs) ns → Fresh devs ns
Fresh-tail d devs [] h = tt
Fresh-tail d devs (n ∷ ns) h = (ground (arith, h.0), Fresh-tail d devs ns h.1)

guarded :
    (P : World → Type 0) (b c : Bool) (e f : Exception) (k : Exec World Unit) (w : World)
    → (c ≡ false → Ends P (k w))
    → Ends P (((λ w. raise_if b e w) >> raise_if c f >> k) w)
guarded P true c e f k w h = tt
guarded P false true e f k w h = tt
guarded P false false e f k w h = h refl

raise_if-IsKeeping : (b : World → Bool) (e : Exception) → IsKeeping (λ w. raise_if (b w) e w)
raise_if-IsKeeping b e w = raised (b w)
  where
    raised : (c : Bool) → Keeps w (raise_if c e w).1
    raised true = Keeps-refl w
    raised false = Keeps-refl w

module _ (accessible : FilePath → World → Bool) (dev : FilePath → ℕ) where
  -- A check of the devices that passes has found them all different, and the state is as it was.
  pub check_devices-IsDistinct :
      (devs : List ℕ) (ps : List FilePath) (w : World)
      → Ends
          (λ w'. (w' ≡ w) × Fresh devs (devices dev ps) × IsDistinct (devices dev ps))
          (check_devices accessible dev devs ps w)
  unfolding check_devices
  check_devices-IsDistinct devs [] w = (refl, tt, tt)
  check_devices-IsDistinct devs (p ∷ ps) w =
      guarded _ (not (is_some (node_at p w))) (any_number (dev p) devs) file_not_found runtime_error
        (check_devices accessible dev (dev p ∷ devs) ps) w
        (λ z.
          added z (check_devices accessible dev (dev p ∷ devs) ps w)
            (check_devices-IsDistinct (dev p ∷ devs) ps w))
    where
      added :
          any_number (dev p) devs ≡ false
          → (r : Result Unit × World)
          → Ends
              (λ w'. (w' ≡ w) × Fresh (dev p ∷ devs) (devices dev ps) × IsDistinct (devices dev ps))
              r
          → Ends
              (λ w'.
                (w' ≡ w) × Fresh devs (devices dev (p ∷ ps)) × IsDistinct (devices dev (p ∷ ps)))
              r
      added z (ok x, w') (e, f, d) =
          (e, (z, Fresh-tail (dev p) devs _ f), (Fresh-not_in (dev p) devs _ f, d))
      added z (err x, w') h = tt

  create_and_check_directory-IsKeeping :
      (d : FilePath) → IsKeeping (create_and_check_directory accessible dev d)
  unfolding create_and_check_directory exists
  create_and_check_directory-IsKeeping d =
      bind-IsKeeping (exists d)
        (λ there.
          (if there then pure tt else mkdir_parents d)
          >> (λ w. raise_if (not (is_dir (node_at d w))) runtime_error w)
          >> (λ w. raise_if (not (accessible d w)) runtime_error w))
        Keeps-refl
        (λ there.
          bind-IsKeeping
            ((if there then pure tt else mkdir_parents d)
              >> (λ w. raise_if (not (is_dir (node_at d w))) runtime_error w))
            (λ _ w. raise_if (not (accessible d w)) runtime_error w)
            (bind-IsKeeping (if there then pure tt else mkdir_parents d)
              (λ _ w. raise_if (not (is_dir (node_at d w))) runtime_error w)
              (if-IsKeeping there (pure tt) (mkdir_parents d) Keeps-refl
                (mkdir_parents-IsKeeping d))
              (λ _. raise_if-IsKeeping (λ w. not (is_dir (node_at d w))) runtime_error))
            (λ _. raise_if-IsKeeping (λ w. not (accessible d w)) runtime_error))

  pub check_directories-IsKeeping :
      (ds : List FilePath) → IsKeeping (for_each (create_and_check_directory accessible dev) ds)
  check_directories-IsKeeping [] = Keeps-refl
  check_directories-IsKeeping (d ∷ ds) =
      bind-IsKeeping (create_and_check_directory accessible dev d)
        (λ _. for_each (create_and_check_directory accessible dev) ds)
        (create_and_check_directory-IsKeeping d) (λ _. check_directories-IsKeeping ds)

or_raise-IsKeeping : {A : Type 0} (o : Option A) (e : Exception) → IsKeeping (or_raise o e)
or_raise-IsKeeping none e = Keeps-refl
or_raise-IsKeeping (some a) e = Keeps-refl

cow_support-IsKeeping : (pools : Dict StoragePool) → IsKeeping (cow_support pools)
cow_support-IsKeeping [] = Keeps-refl
cow_support-IsKeeping ((name, pool) ∷ pools) =
    bind-IsKeeping (is_cow_supported pool.path pool.path)
      (λ b. cow_support pools >>= λ rest. pure ((name, b) ∷ rest))
      (is_cow_supported-IsKeeping pool.path pool.path)
      (λ b.
        bind-IsKeeping (cow_support pools) (λ rest. pure ((name, b) ∷ rest))
          (cow_support-IsKeeping pools) (λ _. Keeps-refl))

pub set_cow_support-IsKeeping : (c : Config) → IsKeeping (set_cow_support c)
unfolding set_cow_support
set_cow_support-IsKeeping c =
    bind-IsKeeping (cow_support c.storage_pools)
      (λ d. modify (λ w. record w { cow_support_map = d })) (cow_support-IsKeeping c.storage_pools)
      (λ d w. record { same = refl; kept = λ p n h e. e })

pub migrate_tasks_file_path-IsKeeping :
    (p : FilePath) (c : Config)
    → str_eq (file_name p) "disk.meta" ≡ false
    → IsKeeping (migrate_tasks_file_path p c)
unfolding migrate_tasks_file_path exists move
migrate_tasks_file_path-IsKeeping p c h =
    bind-IsKeeping (default_path c)
      (λ pool. exists (child pool "tasks.json") >>= λ there.
        if there then move (child pool "tasks.json") p else pure tt)
      (bind-IsKeeping (or_raise (lookup c.default_pool c.storage_pools) (key_error c.default_pool))
        (λ pool. pure pool.path) (or_raise-IsKeeping (lookup c.default_pool c.storage_pools) _)
        (λ _. Keeps-refl))
      (λ pool.
        bind-IsKeeping (exists (child pool "tasks.json"))
          (λ there. if there then move (child pool "tasks.json") p else pure tt) Keeps-refl
          (λ there.
            if-IsKeeping there (move (child pool "tasks.json") p) (pure tt)
              (λ w. elim (Bool-cases (is_dir (node_at p w))) [
                | inl y ↦
                    rw y (
                      replace-IsKeeping (child pool "tasks.json") (child p "tasks.json") refl refl
                        w)
                | inr y ↦ rw y (replace-IsKeeping (child pool "tasks.json") p refl h w)
              ])
              Keeps-refl))

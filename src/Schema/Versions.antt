-- ===== src/Schema/Versions.antt =====
-- rawfile/volume_schema.py: what a sequence of migrations gives.
use rawfile_localpv.Prelude.{
  ℕ, zero, suc, ◌+◌, ◌-◌, ◌<◌, ◌≡◌, refl, ap, arith, sym, subst, ◌∙◌, ==_iff, lt→ltb, Bool, true,
  false, ◌||◌, Option, none, some, String, lookup, insert, contains, if◌then◌else◌, ltb, ◌==◌,
  dict_laws, eq_iff, str_eq, inl, inr, Bool-cases, lookup-insert, lookup-erase,
}
use rawfile_localpv.Json.{Value, null, bool, num, text, path, Json}
use rawfile_localpv.Errors.{Result, ok, err, schema_version_too_new}
use rawfile_localpv.Exec.{Exec, ◌>>◌, pure, raise, lift, proceed}
use rawfile_localpv.Node.World.{World, exists, mkdir_parents}
use rawfile_localpv.Paths.{FilePath, child}
use rawfile_localpv.Node.Metadata.{get_item, as_num}
use rawfile_localpv.Schema.Migrations.{
  set_version, migrate_0_to_1, migrate_1_to_2, migrate_2_to_3, migrate_3_to_4, migrate_4_to_5,
  migrate_5_to_6, migrate_6_to_7, migrate_7_to_8, set_gc_at, move_img_file, vol_path_of,
  move_if_in_data, is_in_data, migrate_fn, migrate_from, schema_version, migrate_to,
}

-- A result satisfies `P` if it is one.
abbrev pub Post {ℓ} : {A S : Type 0} → (A → Type ℓ) → Result A × S → Type ℓ
Post P (ok a, s) = P a
Post P (err e, s) = Unit

pub Post-proceed {ℓ} :
    {S A B : Type 0} (P : B → Type ℓ) (f : A → Exec S B) (r : Result A × S)
    → ((a : A) (s : S) → Post P (f a s))
    → Post P (proceed f r)
Post-proceed P f (ok a, s) h = h a s
Post-proceed P f (err e, s) h = tt

pub Post-bind {ℓ κ} :
    {S A B : Type 0} (Q : A → Type κ) (P : B → Type ℓ) (f : A → Exec S B) (r : Result A × S)
    → Post Q r
    → ((a : A) (s : S) → Q a → Post P (f a s))
    → Post P (proceed f r)
Post-bind Q P f (ok a, s) q h = h a s q
Post-bind Q P f (err e, s) q h = tt

pub Post-imp {ℓ κ} :
    {S A : Type 0} (Q : A → Type κ) (P : A → Type ℓ) (r : Result A × S)
    → Post Q r
    → ((a : A) → Q a → P a)
    → Post P r
Post-imp Q P (ok a, s) q h = h a q
Post-imp Q P (err e, s) q h = tt

pub Post-after {ℓ} :
    {S A B : Type 0} (P : B → Type ℓ) (m : Exec S A) (b : B) (s : S)
    → P b
    → Post P ((m >> pure b) s)
Post-after P m b s h = Post-proceed P (λ _. pure b) (m s) (λ _ s. h)

pub Post-if {ℓ} :
    {S A : Type 0} (P : A → Type ℓ) (b : Bool) (m k : Exec S A) (s : S)
    → (b ≡ true → Post P (m s))
    → (b ≡ false → Post P (k s))
    → Post P ((if b then m else k) s)
Post-if P true m k s h g = h refl
Post-if P false m k s h g = g refl

-- The keys that a migration may write.
abbrev pub is_migrated : String → Bool
is_migrated k =
    str_eq "schema_version" k
    || str_eq "fs_type" k
    || str_eq "gc_at" k
    || str_eq "thin_provision" k
    || str_eq "ready" k
    || str_eq "storage_pool" k
    || str_eq "reflink_attached" k
    || str_eq "img_file" k
    || str_eq "snapshots_dir" k

-- The step from version `i`: the next version is set, and other keys are kept.
abbrev Step : ℕ → Json → Json → Type 0
Step i old new =
    (lookup "schema_version" new ≡ some (num (suc i)))
    × ((k : String) → is_migrated k ≡ false → lookup k new ≡ lookup k old)

step_0 : (m : Json) → Step 0 m (migrate_0_to_1 m)
unfolding migrate_0_to_1
step_0 m = (simp dict_laws, λ k h. ground (arith, lookup-insert "schema_version" k (num 1) m))

step_insert :
    (i : ℕ) (k : String) (v : Value) (m : Json)
    → is_migrated k ≡ true
    → str_eq k "schema_version" ≡ false
    → Step i m (insert k v (set_version (suc i) m))
step_insert i k v m h n = (
  rw lookup-insert (rw n (simp dict_laws)),
  λ j g. ground (
    arith,
    lookup-insert k j v (set_version (suc i) m),
    lookup-insert "schema_version" j (num (suc i)) m,
    eq_iff k j,
  ),
)

step_set_version : (i : ℕ) (m : Json) → Step i m (set_version (suc i) m)
step_set_version i m =
    (simp dict_laws, λ k h. ground (arith, lookup-insert "schema_version" k (num (suc i)) m))

step_1 : (m : Json) → Step 1 m (migrate_1_to_2 m)
unfolding migrate_1_to_2
step_1 m = elim (Bool-cases (contains "fs_type" (set_version 2 m))) [
  | inl e ↦ rw e (step_set_version 1 m)
  | inr e ↦ rw e (step_insert 1 "fs_type" _ m refl refl)
]

set_gc_at-Step :
    (v : Value) (m : Json) (w : World) → Post (Step 2 m) (lift (set_gc_at v (set_version 3 m)) w)
set_gc_at-Step null m w = step_set_version 2 m
set_gc_at-Step (num t) m w = step_insert 2 "gc_at" _ m refl refl
set_gc_at-Step (bool b) m w = tt
set_gc_at-Step (text t) m w = tt
set_gc_at-Step (path p) m w = tt

step_2 : (m : Json) (w : World) → Post (Step 2 m) (lift (migrate_2_to_3 m) w)
unfolding migrate_2_to_3
step_2 m w = set_gc_at-Step (get_item null "deleted_at" m) m w

step_3 : (m : Json) → Step 3 m (migrate_3_to_4 m)
unfolding migrate_3_to_4
step_3 m = step_insert 3 "thin_provision" _ m refl refl

step_4 : (m : Json) → Step 4 m (migrate_4_to_5 m)
unfolding migrate_4_to_5
step_4 m = step_insert 4 "ready" _ m refl refl

step_5 : (m : Json) (w : World) → Post (Step 5 m) (migrate_5_to_6 m w)
unfolding migrate_5_to_6
step_5 m w = step_insert 5 "storage_pool" _ m refl refl

step_6 : (m : Json) → Step 6 m (migrate_6_to_7 m)
unfolding migrate_6_to_7
step_6 m = (
  simp dict_laws,
  λ k h. ground (
    arith,
    lookup-erase "reflink_attached" k (set_version 7 m),
    lookup-insert "schema_version" k (num 7) m,
  ),
)

step_insert_2 :
    (i : ℕ) (k l : String) (u v : Value) (m : Json)
    → is_migrated k ≡ true
    → is_migrated l ≡ true
    → str_eq k "schema_version" ≡ false
    → str_eq l "schema_version" ≡ false
    → Step i m (insert k u (insert l v (set_version (suc i) m)))
step_insert_2 i k l u v m h g n o =
    let s = step_insert i l v m g o in
    (
      rw lookup-insert (rw n s.0),
      λ j a.
          ground
            (arith, lookup-insert k j u (insert l v (set_version (suc i) m)), s.1 j a, eq_iff k j),
    )

move_img_file-Step :
    (p : FilePath) (m : Json) (w : World) → Post (Step 7 m) (move_img_file p (set_version 8 m) w)
move_img_file-Step p m w = Post-proceed (Step 7 m) _ (exists (child p "disk.img") w) (λ there w.
    Post-if (Step 7 m) there _ _ w
      (λ _.
        Post-after (Step 7 m)
          (mkdir_parents (child p "snapshots")
            >> mkdir_parents (child (child p "snapshots") "temp"))
          (insert "snapshots_dir" (path (child p "snapshots"))
            (insert "img_file" (path (child p "disk.img")) (set_version 8 m)))
          w (step_insert_2 7 "snapshots_dir" "img_file" _ _ m refl refl refl refl))
      (λ _. step_set_version 7 m))

step_7 : (m : Json) (w : World) → Post (Step 7 m) (migrate_7_to_8 m w)
unfolding migrate_7_to_8
step_7 m w =
    Post-proceed (Step 7 m) (λ p. move_if_in_data p (set_version 8 m))
      (vol_path_of (set_version 8 m) w)
      (λ p w.
        Post-if (Step 7 m) (is_in_data (get_item null "img_file" (set_version 8 m)))
          (move_img_file p (set_version 8 m)) (pure (set_version 8 m)) w
          (λ _. move_img_file-Step p m w) (λ _. step_set_version 7 m))

migrate_fn-Step : (i : ℕ) (m : Json) (w : World) → Post (Step i m) (migrate_fn i m w)
unfolding migrate_fn
migrate_fn-Step i m w =
    let at = λ (n : ℕ) (k : (i == n) ≡ true). sym ((==_iff i n).0 k) in
    Post-if (Step i m) (i == 0) _ _ w
      (λ e. subst (λ n. Step n m (migrate_0_to_1 m)) (at 0 e) (step_0 m))
      (λ _.
        Post-if (Step i m) (i == 1) _ _ w
          (λ e. subst (λ n. Step n m (migrate_1_to_2 m)) (at 1 e) (step_1 m))
          (λ _.
            Post-if (Step i m) (i == 2) _ _ w
              (λ e. subst (λ n. Post (Step n m) (lift (migrate_2_to_3 m) w)) (at 2 e) (step_2 m w))
              (λ _.
                Post-if (Step i m) (i == 3) _ _ w
                  (λ e. subst (λ n. Step n m (migrate_3_to_4 m)) (at 3 e) (step_3 m))
                  (λ _.
                    Post-if (Step i m) (i == 4) _ _ w
                      (λ e. subst (λ n. Step n m (migrate_4_to_5 m)) (at 4 e) (step_4 m))
                      (λ _.
                        Post-if (Step i m) (i == 5) _ _ w
                          (λ e.
                            subst (λ n. Post (Step n m) (migrate_5_to_6 m w)) (at 5 e) (step_5 m w))
                          (λ _.
                            Post-if (Step i m) (i == 6) _ _ w
                              (λ e. subst (λ n. Step n m (migrate_6_to_7 m)) (at 6 e) (step_6 m))
                              (λ _.
                                Post-if (Step i m) (i == 7) _ _ w
                                  (λ e.
                                    subst (λ n. Post (Step n m) (migrate_7_to_8 m w)) (at 7 e)
                                      (step_7 m w))
                                  (λ _. tt))))))))

abbrev set_after : ℕ → ℕ → Option Value → Option Value
set_after zero i o = o
set_after (suc n) i o = some (num (i + suc n))

-- What `n` rounds from version `i` on leave.
abbrev Run : ℕ → ℕ → Json → Json → Type 0
Run n i old new =
    (lookup "schema_version" new ≡ set_after n i (lookup "schema_version" old))
    × ((k : String) → is_migrated k ≡ false → lookup k new ≡ lookup k old)

Run-suc : (n i : ℕ) (a b c : Json) → Step i a b → Run n (suc i) b c → Run (suc n) i a c
Run-suc zero i a b c s r =
    (r.0 ∙ s.0 ∙ ap (λ x. some (num x)) (omega arith), λ k h. r.1 k h ∙ s.1 k h)
Run-suc (suc n) i a b c s r = (r.0 ∙ ap (λ x. some (num x)) (omega arith), λ k h. r.1 k h ∙ s.1 k h)

migrate_from-Run : (n i : ℕ) (m : Json) (w : World) → Post (Run n i m) (migrate_from n i m w)
unfolding migrate_from
migrate_from-Run zero i m w = (refl, λ k h. refl)
migrate_from-Run (suc n) i m w =
    Post-bind (Step i m) (Run (suc n) i m) (migrate_from n (suc i)) (migrate_fn i m w)
      (migrate_fn-Step i m w)
      (λ b s st.
        Post-imp (Run n (suc i) b) (Run (suc n) i m) (migrate_from n (suc i) b s)
          (migrate_from-Run n (suc i) b s) (λ c r. Run-suc n i m b c st r))

Run-schema_version :
    (n c : ℕ) (m new : Json)
    → schema_version m ≡ ok c
    → Run n c m new
    → schema_version new ≡ ok (c + n)
Run-schema_version zero c m new h r = ap read r.0 ∙ h ∙ ap ok (omega arith)
  where
    read : Option Value → Result ℕ
    read o = as_num (elim o [ none ↦ num 0 | some v ↦ v ])
Run-schema_version (suc n) c m new h r = ap read r.0
  where
    read : Option Value → Result ℕ
    read o = as_num (elim o [ none ↦ num 0 | some v ↦ v ])

Post-lift : {S A : Type 0} (r : Result A) (s : S) → Post (λ a. r ≡ ok a) (lift r s)
Post-lift (ok a) s = refl
Post-lift (err e) s = tt

-- Whatever `migrate_to` gives has the version that was asked for, and every key that no migration
-- writes has the value that it had.
pub migrate_to-schema_version :
    (m : Json) (version : ℕ) (w : World)
    → Post
        (λ new.
          (schema_version new ≡ ok version)
          × ((k : String) → is_migrated k ≡ false → lookup k new ≡ lookup k m))
        (migrate_to m version w)
unfolding migrate_to
migrate_to-schema_version m version w =
    Post-bind (λ c. schema_version m ≡ ok c) Migrated go (lift (schema_version m) w)
      (Post-lift (schema_version m) w)
      (λ c w h.
        Post-if Migrated (ltb version c) (raise (schema_version_too_new c version))
          (migrate_from (version - c) c m) w (λ _. tt)
          (λ g.
            Post-imp (Run (version - c) c m) Migrated (migrate_from (version - c) c m w)
              (migrate_from-Run (version - c) c m w)
              (λ new r.
                (Run-schema_version (version - c) c m new h r ∙ ap ok (ground (arith, g)), r.1))))
  where
    Migrated : Json → Type 0
    Migrated new =
        (schema_version new ≡ ok version)
        × ((k : String) → is_migrated k ≡ false → lookup k new ≡ lookup k m)

    go : ℕ → Exec World Json
    go c =
        if ltb version c
        then raise (schema_version_too_new c version)
        else migrate_from (version - c) c m

-- Metadata that are newer than the version asked for are refused, and nothing is changed.
pub migrate_to-too_new :
    (m : Json) (current version : ℕ) (w : World)
    → schema_version m ≡ ok current
    → version < current
    → migrate_to m version w ≡ (err (schema_version_too_new current version), w)
unfolding migrate_to
migrate_to-too_new m current version w h g = rw h (rw (lt→ltb version current g) refl)

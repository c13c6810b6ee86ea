-- ===== src/Startup/Latest.antt =====
-- rawfile/utils/volume_manager.py: what the migration of the metadata leaves, for every volume.
use rawfile_localpv.Prelude.{
  ◌⊎◌, ℕ, zero, suc, ◌-◌, ◌≡◌, refl, sym, ap, ◌∙◌, subst, true, false, Option, none, some, List, [],
  ◌∷◌, String, if◌then◌else◌, Bool-cases, inl, inr, lookup, ltb, ◌==◌, All,
}
use rawfile_localpv.Paths.{FilePath, child, path_eq, path_eq_iff}
use rawfile_localpv.Json.{null, text, Json}
use rawfile_localpv.Errors.{Result, ok, err, schema_version_too_new}
use rawfile_localpv.Exec.{Exec, ◌>>=◌, ◌>>◌, pure, proceed, lift, raise}
use rawfile_localpv.Node.Files.{Node, dir, file, json_file, link, special}
use rawfile_localpv.Node.World.{World, StoragePool, node_at, write_json, exists, mkdir_parents}
use rawfile_localpv.Node.Metadata.{
  get_item, item, as_text, meta_dir, meta_file, meta_file_tmp, get_volume_path, update_permissions,
  update_metadata, metadata_or, pool_of,
}
use rawfile_localpv.Node.Patch.{with_metadata, find-with_metadata, update_metadata-eq}
use rawfile_localpv.Node.Reading.{metadata_or-IsReading}
use rawfile_localpv.Schema.Migrations.{
  latest_schema_version, schema_version, migrate_to, migrate_from, migrate_fn, migrate_5_to_6,
  migrate_7_to_8, vol_path_of, move_if_in_data, move_img_file, moved_img_file, moved_if,
  snapshot_folders, is_in_data, set_version,
}
use rawfile_localpv.Schema.Versions.{Post, Post-imp, migrate_to-schema_version}
use rawfile_localpv.Volumes.Destroy.{
  for_each, volumes_of, list_all_volumes, migrate_metadata, migrate_all_volume_schemas,
}
use rawfile_localpv.Startup.Keeping.{
  Keeps, Keeps-refl, IsKeeping, bind-IsKeeping, if-IsKeeping, mkdir_parents-IsKeeping,
}

-- The metadata of the volume can be read and have the latest version.
abbrev pub IsLatest : String → World → Type 0
IsLatest v w =
    (j : Json) × (node_at (meta_file v w) w ≡ some (json_file j))
    × (schema_version j ≡ ok latest_schema_version)

-- A call that returns leaves a state with `P`.
abbrev pub Ends : {A : Type 0} → (World → Type 0) → Result A × World → Type 0
Ends P (ok a, w) = P w
Ends P (err e, w) = Unit

module _ {A B : Type 0} where
  pub Ends-bind :
      (Q P : World → Type 0) (f : A → Exec World B) (r : Result A × World)
      → Ends Q r
      → ((a : A) (w : World) → Q w → Ends P (f a w))
      → Ends P (proceed f r)
  Ends-bind Q P f (ok a, w) q h = h a w q
  Ends-bind Q P f (err e, w) q h = tt

pub Ends-Keeps :
    {A : Type 0} (P : World → Type 0) (w : World) (r : Result A × World)
    → Keeps w r.1
    → ((w' : World) → Keeps w w' → P w')
    → Ends P r
Ends-Keeps P w (ok a, w') k h = h w' k
Ends-Keeps P w (err e, w') k h = tt

pub IsLatest-Keeps : (v : String) (w w' : World) → Keeps w w' → IsLatest v w → IsLatest v w'
unfolding meta_file meta_dir
IsLatest-Keeps v w w' k (j, e, l) = (j, rw k.same (k.kept (meta_file v w) (json_file j) refl e), l)

-- What holds of the state with the new metadata holds after an update that returns.
update_metadata-Ends :
    (P : World → Type 0) (v pool : String) (obj : Json) (w : World)
    → P (with_metadata v obj w)
    → Ends P (update_metadata v pool obj w)
unfolding update_metadata update_permissions get_volume_path write_json meta_file_tmp
update_metadata-Ends P v pool obj w h = pooled (lookup pool w.config.storage_pools) refl
  where
    at :
        (n : Option Node)
        → node_at (meta_dir v w) w ≡ n
        → (o : Option StoragePool) → lookup pool w.config.storage_pools ≡ o
        → Ends P (update_metadata v pool obj w)
    at n e none f = rw f tt
    at none e (some p) f = rw (f, e) tt
    at (some dir) e (some p) f =
        let g : get_volume_path pool v w ≡ (ok (child p.path v), w) = rw f refl in
        rw (update_metadata-eq v pool obj w g e) h
    at (some (file x)) e (some p) f = rw (f, e) tt
    at (some (json_file x)) e (some p) f = rw (f, e) tt
    at (some (link x)) e (some p) f = rw (f, e) tt
    at (some special) e (some p) f = rw (f, e) tt

    pooled :
        (o : Option StoragePool)
        → lookup pool w.config.storage_pools ≡ o
        → Ends P (update_metadata v pool obj w)
    pooled o e = at (node_at (meta_dir v w) w) refl o e

-- The update gives its volume the latest version if the new metadata have it, and takes it from none.
with_metadata-IsLatest :
    (u v : String) (obj : Json) (w : World)
    → schema_version obj ≡ ok latest_schema_version
    → (u ≡ v) ⊎ IsLatest u w
    → IsLatest u (with_metadata v obj w)
unfolding meta_file meta_dir with_metadata meta_file_tmp
with_metadata-IsLatest u v obj w l h = elim (Bool-cases (path_eq (meta_file v w) (meta_file u w))) [
  | inl y ↦ (obj, rw (find-with_metadata v obj w (meta_file u w)) (rw y refl), l)
  | inr y ↦ elim h [
    | inl e ↦
        let p : meta_file v w ≡ meta_file u w = ap (λ x. meta_file x w) (sym e) in
        let t : path_eq (meta_file v w) (meta_file u w) ≡ true = (path_eq_iff _ _).1 p in
        let no : true ≡ false = sym t ∙ y in cc
    | inr (j, e, k) ↦ (j, rw (find-with_metadata v obj w (meta_file u w)) (rw y e), k)
  ]
]

move_img_file-IsKeeping : (p : FilePath) (m : Json) → IsKeeping (move_img_file p m)
unfolding exists
move_img_file-IsKeeping p m =
    bind-IsKeeping (exists (child p "disk.img")) (moved_if p m) (λ w. Keeps-refl w)
      (λ there.
        if-IsKeeping there (moved_img_file p m) (pure m)
          (bind-IsKeeping (snapshot_folders p) (λ _. pure _)
            (bind-IsKeeping (mkdir_parents (child p "snapshots"))
              (λ _. mkdir_parents (child (child p "snapshots") "temp"))
              (mkdir_parents-IsKeeping (child p "snapshots"))
              (λ _. mkdir_parents-IsKeeping (child (child p "snapshots") "temp")))
            (λ _ w. Keeps-refl w))
          (λ w. Keeps-refl w))

vol_path_of-IsKeeping : (m : Json) → IsKeeping (vol_path_of m)
unfolding pool_of get_volume_path
vol_path_of-IsKeeping m =
    bind-IsKeeping (pool_of m)
      (λ pool. lift (item "volume_id" m) >>= λ v. lift (as_text v) >>= get_volume_path pool)
      Keeps-refl
      (λ pool.
        bind-IsKeeping (lift (item "volume_id" m)) (λ v. lift (as_text v) >>= get_volume_path pool)
          Keeps-refl
          (λ v.
            bind-IsKeeping (lift (as_text v)) (get_volume_path pool) Keeps-refl (λ n. Keeps-refl)))

migrate_7_to_8-IsKeeping : (m : Json) → IsKeeping (migrate_7_to_8 m)
unfolding migrate_7_to_8
migrate_7_to_8-IsKeeping m =
    bind-IsKeeping (vol_path_of (set_version 8 m)) (λ p. move_if_in_data p (set_version 8 m))
      (vol_path_of-IsKeeping (set_version 8 m))
      (λ p.
        if-IsKeeping (is_in_data (get_item null "img_file" (set_version 8 m)))
          (move_img_file p (set_version 8 m)) (pure (set_version 8 m))
          (move_img_file-IsKeeping p (set_version 8 m)) (λ w. Keeps-refl w))

migrate_fn-IsKeeping : (i : ℕ) (m : Json) → IsKeeping (migrate_fn i m)
unfolding migrate_fn migrate_5_to_6
migrate_fn-IsKeeping i m = if-IsKeeping (i == 0) _ _ Keeps-refl (
    if-IsKeeping (i == 1) _ _ Keeps-refl (
      if-IsKeeping (i == 2) _ _ Keeps-refl (
        if-IsKeeping (i == 3) _ _ Keeps-refl (
          if-IsKeeping (i == 4) _ _ Keeps-refl (
            if-IsKeeping (i == 5) _ _ Keeps-refl (
              if-IsKeeping (i == 6) _ _ Keeps-refl
                (if-IsKeeping (i == 7) _ _ (migrate_7_to_8-IsKeeping m) Keeps-refl)))))))

migrate_from-IsKeeping : (n i : ℕ) (m : Json) → IsKeeping (migrate_from n i m)
unfolding migrate_from
migrate_from-IsKeeping zero i m = Keeps-refl
migrate_from-IsKeeping (suc n) i m =
    bind-IsKeeping (migrate_fn i m) (migrate_from n (suc i)) (migrate_fn-IsKeeping i m)
      (λ b. migrate_from-IsKeeping n (suc i) b)

migrate_to-IsKeeping : (m : Json) (version : ℕ) → IsKeeping (migrate_to m version)
unfolding migrate_to
migrate_to-IsKeeping m version =
    bind-IsKeeping (lift (schema_version m))
      (λ c.
        if ltb version c
        then raise (schema_version_too_new c version)
        else migrate_from (version - c) c m)
      Keeps-refl
      (λ c.
        if-IsKeeping (ltb version c) (raise (schema_version_too_new c version))
          (migrate_from (version - c) c m) Keeps-refl (migrate_from-IsKeeping (version - c) c m))

abbrev store_migrated : String → Json → Exec World Json
store_migrated v new = pool_of new >>= λ pool. update_metadata v pool new

-- A migration that returns leaves its volume with the latest version, and so every other one that
-- had it.
migrate_metadata-IsLatest :
    (u v : String) (w : World)
    → (u ≡ v) ⊎ IsLatest u w
    → Ends (IsLatest u) (migrate_metadata v latest_schema_version w)
unfolding migrate_metadata pool_of
migrate_metadata-IsLatest u v w h =
    Ends-bind (λ w. (u ≡ v) ⊎ IsLatest u w) (IsLatest u)
      (λ old. migrate_to old latest_schema_version >>= store_migrated v) (metadata_or v w)
      (read (metadata_or v w) (metadata_or-IsReading v w))
      (λ old w h.
        migrated w (migrate_to old latest_schema_version w) h
          (Post-imp _ (λ new. schema_version new ≡ ok latest_schema_version)
            (migrate_to old latest_schema_version w)
            (migrate_to-schema_version old latest_schema_version w) (λ new l. l.0))
          (migrate_to-IsKeeping old latest_schema_version w))
  where
    read : (r : Result Json × World) → r.1 ≡ w → Ends (λ w. (u ≡ v) ⊎ IsLatest u w) r
    read (ok x, s) e = subst (λ x. (u ≡ v) ⊎ IsLatest u x) (sym e) h
    read (err x, s) e = tt

    stored :
        (new : Json) (w : World) (t : Result String)
        → (u ≡ v) ⊎ IsLatest u w
        → schema_version new ≡ ok latest_schema_version
        → Ends (IsLatest u) (proceed (λ pool. update_metadata v pool new) (t, w))
    stored new w (ok pool) h l =
        update_metadata-Ends (IsLatest u) v pool new w (with_metadata-IsLatest u v new w l h)
    stored new w (err e) h l = tt

    later : (w w' : World) → Keeps w w' → (u ≡ v) ⊎ IsLatest u w → (u ≡ v) ⊎ IsLatest u w'
    later w w' k (inl e) = inl e
    later w w' k (inr l) = inr (IsLatest-Keeps u w w' k l)

    migrated :
        (w : World) (r : Result Json × World)
        → (u ≡ v) ⊎ IsLatest u w
        → Post (λ new. schema_version new ≡ ok latest_schema_version) r
        → Keeps w r.1
        → Ends (IsLatest u) (proceed (store_migrated v) r)
    migrated w (ok new, w') h l k =
        stored new w' (as_text (get_item (text w'.config.default_pool) "storage_pool" new))
          (later w w' k h) l
    migrated w (err e, w') h l k = tt

module _ {A : Type 0} where
  pub Ends-and :
      (P Q : World → Type 0) (r : Result A × World) → Ends P r → Ends Q r → Ends (λ w. P w × Q w) r
  Ends-and P Q (ok a, w) p q = (p, q)
  Ends-and P Q (err e, w) p q = tt

abbrev migrate_one : String → Exec World Unit
migrate_one v = migrate_metadata v latest_schema_version >> pure tt

migrate_one-IsLatest :
    (u v : String) (w : World) → (u ≡ v) ⊎ IsLatest u w → Ends (IsLatest u) (migrate_one v w)
migrate_one-IsLatest u v w h =
    Ends-bind (IsLatest u) (IsLatest u) (λ _. pure tt) (migrate_metadata v latest_schema_version w)
      (migrate_metadata-IsLatest u v w h) (λ a w l. l)

migrate_list-keeps :
    (u : String) (vs : List String) (w : World)
    → IsLatest u w
    → Ends (IsLatest u) (for_each migrate_one vs w)
migrate_list-keeps u [] w h = h
migrate_list-keeps u (v ∷ vs) w h =
    Ends-bind (IsLatest u) (IsLatest u) (λ _. for_each migrate_one vs) (migrate_one v w)
      (migrate_one-IsLatest u v w (inr h)) (λ _ w l. migrate_list-keeps u vs w l)

abbrev pub AllLatest : List String → World → Type 0
AllLatest vs w = All (λ v. IsLatest v w) vs

migrate_list-AllLatest :
    (vs : List String) (w : World) → Ends (AllLatest vs) (for_each migrate_one vs w)
migrate_list-AllLatest [] w = tt
migrate_list-AllLatest (v ∷ vs) w =
    Ends-bind (IsLatest v) (AllLatest (v ∷ vs)) (λ _. for_each migrate_one vs) (migrate_one v w)
      (migrate_one-IsLatest v v w (inl refl))
      (λ _ w l.
        Ends-and (IsLatest v) (AllLatest vs) (for_each migrate_one vs w)
          (migrate_list-keeps v vs w l) (migrate_list-AllLatest vs w))

-- When the migration of the metadata returns, each volume that had metadata has them in the latest
-- version, whatever versions they had and in whatever order the volumes were found.
pub migrate_all_volume_schemas-AllLatest :
    (w : World)
    → Ends (AllLatest (volumes_of w.config.metadata_dir w.files)) (migrate_all_volume_schemas w)
unfolding migrate_all_volume_schemas list_all_volumes
migrate_all_volume_schemas-AllLatest w = migrate_list-AllLatest _ w

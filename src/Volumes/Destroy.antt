-- ===== src/Volumes/Destroy.antt =====
-- rawfile/utils/volume_manager.py: the deletion of volumes, their statistics and their migration.
use rawfile_localpv.Prelude.{
  ℕ, ◌-◌, ◌*◌, Bool, true, false, ◌&&◌, ◌||◌, not, Option, none, some, List, [], ◌∷◌, String, Dict,
  if◌then◌else◌, leb, ltb, is_empty, str_eq,
}
use text.Mathlib.Text.{starts_with}
use rawfile_localpv.Paths.{FilePath, root, child, path_eq}
use rawfile_localpv.Json.{Value, null, bool, num, Json}
use rawfile_localpv.Errors.{Exception, Result, ok, err, volume_in_use, file_not_found, key_error}
use rawfile_localpv.Exec.{Exec, ◌>>=◌, ◌>>◌, pure, gets, lift, raise_if}
use rawfile_localpv.Node.Files.{Node, file, Files, children}
use rawfile_localpv.Node.World.{World, StatVfs, node_at, rmdir, unlink, exists, time}
use rawfile_localpv.Node.Metadata.{
  get_item, item, as_num, as_text, truthy, or_not_found, meta_dir, metadata_or, img_file, img_size,
  snapshots_dir, get_volume_path, pool_of, patch_metadata, update_metadata, attached_loops,
  with_vol_lock,
}
use rawfile_localpv.Schema.Migrations.{latest_schema_version, migrate_to}

-- `path.rmdir()`, of a folder that may be gone.
unfoldable pub rmdir_if_there : FilePath → Exec World Unit
rmdir_if_there p w = or_not_found (rmdir p w) tt

abbrev without : FilePath → List FilePath → List FilePath
without p [] = []
without p (q ∷ qs) = let rest = without p qs in if path_eq q p then rest else q ∷ rest

abbrev glob_all : FilePath → Exec World (List FilePath)
glob_all p = gets (λ w. children p w.files)

abbrev pub for_each {ℓ} : {A : Type ℓ} {S : Type 0} → (A → Exec S Unit) → List A → Exec S Unit
for_each f [] = pure tt
for_each f (a ∷ rest) = f a >> for_each f rest

-- The metadata are kept while there are snapshots, and so are the folders of these.
abbrev remove_folders : String → List FilePath → List FilePath → Exec World Unit
remove_folders v temp_snapshots snapshots =
    if not (is_empty temp_snapshots)
    then pure tt
    else snapshots_dir v true
      >>= rmdir_if_there
      >> (if not (is_empty snapshots) then pure tt else snapshots_dir v false >>= rmdir_if_there)

abbrev remove_metadata : String → Json → Exec World Unit
remove_metadata v meta = gets (meta_dir v) >>= λ d. glob_all d >>= λ files.
    for_each (unlink true) files >> rmdir_if_there d >> pool_of meta >>= λ pool.
    get_volume_path pool v >>= rmdir_if_there

unfoldable pub destroy_volume : String → Bool → Exec World Unit
destroy_volume v true = pure tt
destroy_volume v false = snapshots_dir v false >>= λ d. snapshots_dir v true >>= λ temp.
    glob_all d >>= λ all.
    let snapshots = without temp all in
    glob_all temp >>= λ temp_snapshots. metadata_or v >>= λ meta. img_file v >>= λ image.
    unlink true image
    >> remove_folders v temp_snapshots snapshots
    >> (if is_empty snapshots && is_empty temp_snapshots then remove_metadata v meta else pure tt)

-- `gc_at`, unless one of the two is missing.
abbrev pub due_time : Value → Value → Option Value
due_time null g = none
due_time d null = none
due_time d g = some g

unfoldable pub gc_if_needed : String → Bool → Exec World Bool
gc_if_needed v dry_run = with_vol_lock v (metadata_or v) >>= λ meta.
    elim (due_time (get_item null "deleted_at" meta) (get_item null "gc_at" meta)) [
      | none ↦ pure false
      | some g ↦ time >>= λ now. lift (as_num g) >>= λ gc_at.
          if leb gc_at now then (destroy_volume v dry_run >> pure true) else pure false
    ]

abbrev deleted_items : ℕ → Json
deleted_items now = ("deleted_at", num now) ∷ ("gc_at", num now) ∷ ("ready", bool false) ∷ []

abbrev pub delete_present : String → Json → Exec World ℕ
delete_present v meta = img_file v >>= λ image. img_size v >>= λ size.
    gets (λ w. w.host.resolve image w.files) >>= attached_loops >>= λ loops.
    raise_if (not (is_empty loops)) (volume_in_use v) >> time >>= λ now.
    with_vol_lock v (
      lift (item "storage_pool" meta) >>= λ p.
      lift (as_text p) >>= λ pool. patch_metadata v pool (deleted_items now))
    >> gc_if_needed v false
    >> pure size

unfoldable pub delete_volume : String → Exec World ℕ
delete_volume v = metadata_or v >>= λ meta. pool_of meta >>= λ pool. get_volume_path pool v >>= λ d.
    exists d >>= λ there. if there then delete_present v meta else pure 0

-- The names of the folders of `d` that hold a `disk.meta`; `glob` leaves out hidden ones.
unfoldable pub volumes_of : FilePath → Files → List String
volumes_of d [] = []
volumes_of d ((child (child q v) n, _) ∷ fs) =
    let rest = volumes_of d fs in
    if path_eq q d && str_eq n "disk.meta" && not (starts_with v ".") then v ∷ rest else rest
volumes_of d ((child root _, _) ∷ fs) = volumes_of d fs
volumes_of d ((root, _) ∷ fs) = volumes_of d fs

unfoldable pub list_all_volumes : Exec World (List String)
list_all_volumes = gets (λ w. volumes_of w.config.metadata_dir w.files)

abbrev traverse : {A B S : Type 0} → (A → Exec S B) → List A → Exec S (List B)
traverse f [] = pure []
traverse f (a ∷ rest) = f a >>= λ b. traverse f rest >>= λ bs. pure (b ∷ bs)

unfoldable pub gc_all_volumes : Bool → Exec World (List Bool)
gc_all_volumes dry_run = list_all_volumes >>= traverse (λ v. gc_if_needed v dry_run)

unfoldable pub is_attached : String → Exec World Bool
is_attached v = metadata_or v >>= λ meta. lift (item "storage_pool" meta) >>= λ p.
    lift (as_text p) >>= λ pool. get_volume_path pool v >>= λ d. exists d >>= λ there.
    if there
    then (img_file v >>= λ image. attached_loops image >>= λ loops. pure (not (is_empty loops)))
    else pure false

-- The dict is changed in place, so that the pool is the one that the new metadata name.
unfoldable pub migrate_metadata : String → ℕ → Exec World Json
migrate_metadata v target_version = metadata_or v >>= λ old.
    migrate_to old target_version >>= λ new. pool_of new >>= λ pool. update_metadata v pool new

unfoldable pub migrate_all_volume_schemas : Exec World Unit
migrate_all_volume_schemas =
    list_all_volumes >>= for_each (λ v. migrate_metadata v latest_schema_version >> pure tt)

pub record VolumeStats : Type 0 where
  pub physical_size : ℕ
  pub logical_size : ℕ
  pub used : ℕ
  pub pool : String
  pub thin_provision : Bool
  pub sparse : Bool

-- `statvfs` of utils/devices.py: the bytes in use.
abbrev pub fs_usage : StatVfs → ℕ
fs_usage s = s.f_frsize * s.f_blocks - s.f_frsize * s.f_bavail

abbrev used_at : Option FilePath → World → ℕ
used_at none w = 0
used_at (some mountpoint) w = fs_usage (w.host.statvfs mountpoint)

abbrev used_by : List String → World → ℕ
used_by [] w = 0
used_by (dev ∷ _) w = used_at (w.host.findmnt_device dev) w

abbrev pub stats_at : Option Node → List String → String → Bool → World → Option VolumeStats
stats_at (some (file f)) loops pool thin w = some (record {
  physical_size = 512 * f.blocks;
  logical_size = f.size;
  used = used_by loops w;
  pool = pool;
  sparse = ltb (512 * f.blocks) f.size || thin;
  thin_provision = thin;
})
stats_at _ loops pool thin w = none

abbrev is_lookup_error : Exception → Bool
is_lookup_error file_not_found = true
is_lookup_error (key_error k) = true
is_lookup_error _ = false

-- `except (FileNotFoundError, KeyError): return None`
abbrev pub none_if_missing :
    Result (Option VolumeStats) × World → Result (Option VolumeStats) × World
none_if_missing (ok o, w) = (ok o, w)
none_if_missing (err e, w) = (if is_lookup_error e then ok none else err e, w)

unfoldable pub get_volume_stats : String → Exec World (Option VolumeStats)
get_volume_stats v w = none_if_missing (
    (metadata_or v >>= λ meta. pool_of meta >>= λ pool. img_file v >>= λ image.
    attached_loops image >>= λ loops.
    gets (
      stats_at (node_at image w) loops pool (truthy (get_item (bool false) "thin_provision" meta))))
      w)

abbrev keep_stats :
    (VolumeStats → Bool) → String → Option VolumeStats → Dict VolumeStats → Dict VolumeStats
keep_stats p v none d = d
keep_stats p v (some s) d = if p s then (v, s) ∷ d else d

abbrev pub collect : (VolumeStats → Bool) → List String → Exec World (Dict VolumeStats)
collect p [] = pure []
collect p (v ∷ vs) = get_volume_stats v >>= λ s. collect p vs >>= λ d. pure (keep_stats p v s d)

unfoldable pub get_all_volumes_stats : Exec World (Dict VolumeStats)
get_all_volumes_stats = list_all_volumes >>= collect (λ _. true)

unfoldable pub get_volumes_stats_by_pool : String → Exec World (Dict VolumeStats)
get_volumes_stats_by_pool storage_pool =
    list_all_volumes >>= collect (λ s. str_eq s.pool storage_pool)

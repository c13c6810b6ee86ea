-- ===== src/Internal/Growth.antt =====
-- rawfile/internal_svc.py: what the expansion of a thin volume does.
use rawfile_localpv.Prelude.{
  ℕ, ◌-◌, ◌*◌, ◌<◌, ◌≡◌, refl, ap, arith, true, false, some, [], ◌∷◌, String, if◌then◌else◌, ltb,
  merge, lookup, inl, inr, Bool-cases, sub_ℕ,
}
use rawfile_localpv.Paths.{FilePath, child, path_eq}
use rawfile_localpv.Json.{bool, num, Json}
use rawfile_localpv.Errors.{ok}
use rawfile_localpv.Node.Files.{dir, file, File, put, find-put}
use rawfile_localpv.Node.World.{World, StoragePool, with_files, node_at, read_json}
use rawfile_localpv.Node.Metadata.{
  get_item, truthy, meta_dir, meta_file, metadata, metadata_or, get_volume_path, patch_metadata,
  truncate, open_append, or_not_found,
}
use rawfile_localpv.Node.Patch.{with_metadata, patch_metadata-metadata}
use rawfile_localpv.Volumes.Capacity.{get_capacity}
use rawfile_localpv.Internal.Expand.{done, exhausted, required_space, lacks, storage_pool_of, grow}
use rawfile_localpv.Prelude.{le→leb}

-- The state with the image at the new size.
abbrev pub with_image : FilePath → File → ℕ → World → World
with_image p f size w =
    with_files
      (put p (file (record f { size = size; blocks = w.host.blocks_after f size })) w.files) w

truncate-eq :
    (p : FilePath) (f : File) (size : ℕ) (w : World)
    → node_at p w ≡ some (file f)
    → truncate p size w ≡ (ok tt, with_image p f size w)
unfolding truncate open_append
truncate-eq p f size w h = rw h refl

lacks-sub : (c new old : ℕ) → old < new → lacks c (sub_ℕ new old) ≡ ltb c (100 * (new - old))
lacks-sub c new old l = rw (le→leb old new (omega (arith, l))) refl

get_volume_path-eq :
    (pool v : String) (sp : StoragePool) (w : World)
    → lookup pool w.config.storage_pools ≡ some sp
    → get_volume_path pool v w ≡ (ok (child sp.path v), w)
unfolding get_volume_path
get_volume_path-eq pool v sp w q = rw q refl

module _ (v pool : String) (old new capacity : ℕ) (image : FilePath) (sp : StoragePool) (f : File)
    (meta : Json) (w : World) (m : metadata v w ≡ (ok meta, w))
    (t : truthy (get_item (bool false) "thin_provision" meta) ≡ true)
    (p : storage_pool_of meta w ≡ (ok pool, w)) (c : get_capacity (some pool) w ≡ (ok capacity, w))
    (q : lookup pool w.config.storage_pools ≡ some sp) (i : node_at image w ≡ some (file f))
    (k : node_at (meta_dir v w) w ≡ some dir) (a : path_eq image (meta_file v w) ≡ false)
    (b : path_eq image (meta_dir v w) ≡ false) (l : old < new) where
  abbrev grown : World
  grown = with_image image f new w

  metadata_or-grown : metadata_or v grown ≡ (ok meta, grown)
  unfolding metadata_or metadata read_json meta_file meta_dir
  metadata_or-grown = rw find-put (rw a (ap (λ r. or_not_found (r.0, grown) []) m))

  dir-grown : node_at (meta_dir v grown) grown ≡ some dir
  unfolding meta_dir
  dir-grown = rw find-put (rw b k)

  patched-grown : patch_metadata v pool (("size", num new) ∷ []) grown ≡ (
    ok (merge meta (("size", num new) ∷ [])),
    with_metadata v (merge meta (("size", num new) ∷ [])) grown,
  )
  patched-grown =
      (patch_metadata-metadata v pool (("size", num new) ∷ []) meta grown
        (get_volume_path-eq pool v sp grown q) metadata_or-grown dir-grown).0

  grow-exhausted :
      ltb capacity (100 * (new - old)) ≡ true → grow v old new image w ≡ (ok exhausted, w)
  unfolding grow required_space
  grow-exhausted h = rw (m, t, p, c) (rw (lacks-sub capacity new old l) (rw h refl))

  grow-done :
      ltb capacity (100 * (new - old)) ≡ false
      → grow v old new image w
        ≡ (ok done, with_metadata v (merge meta (("size", num new) ∷ [])) grown)
  unfolding grow required_space
  grow-done h =
      rw (m, t, p, c)
        (rw (lacks-sub capacity new old l)
          (rw h (rw (truncate-eq image f new w i) (rw patched-grown refl))))

  -- The expansion of a thin volume that is recorded smaller and whose pool has `capacity` left: if
  -- that is less than what the volume grows by, it is refused and nothing changes. If not, the image
  -- is cut to the new size and the metadata record that size; the rest of them is kept.
  pub grow-thin : grow v old new image w ≡ (
      if ltb capacity (100 * (new - old)) then (ok exhausted, w) else (
        ok done,
        with_metadata v (merge meta (("size", num new) ∷ [])) (with_image image f new w),
      ))
  grow-thin = elim (Bool-cases (ltb capacity (100 * (new - old)))) [
    | inl h ↦ rw h (grow-exhausted h)
    | inr h ↦ rw h (grow-done h)
  ]

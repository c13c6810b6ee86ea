-- ===== src/Volumes/Paging.antt =====
-- rawfile/utils/snapshot_manager.py: the list of the snapshots and its pages. `glob` gives the image
-- files that it found as folders and names: `(d, n)` is the file `n.img` in `d`.
use Prim.Native.String.{◌++◌}
use rawfile_localpv.Prelude.{
  ℕ, zero, suc, ◌+◌, ◌-◌, ◌<◌, ◌≤◌, ◌≡◌, refl, ◌∙◌, arith, Bool, true, false, ◌&&◌, ◌||◌, not,
  Option, none, some, List, [], ◌∷◌, String, length, is_empty, take, drop, map, lookup,
  if◌then◌else◌, ltb, leb, lt→ltb, le→leb, ap,
}
use rawfile_localpv.Paths.{FilePath, child, parent, file_name}
use rawfile_localpv.Errors.{key_error}
use rawfile_localpv.Exec.{Exec, ◌>>=◌, pure, lift, or_raise}
use rawfile_localpv.Node.Files.{Node, file}
use rawfile_localpv.Json.{Value, Json}
use rawfile_localpv.Node.World.{World, StoragePool, node_at, is_some}
use rawfile_localpv.Node.Metadata.{metadata, item, as_text}
use rawfile_localpv.Volumes.Snapshots.{Snapshot, SnapshotList, snap_file_path, creating}

abbrev pub SnapFile : Type 0
SnapFile = FilePath × String

pub ltb_no : (a b : ℕ) → b ≤ a → ltb a b ≡ false
ltb_no a b h = ground (arith, h)

leb_no : (a b : ℕ) → b < a → leb a b ≡ false
leb_no a b h = ground (arith, h)

-- A number that is missing counts as 0, as it does in a condition.
abbrev pub or_zero : Option ℕ → ℕ
or_zero none = 0
or_zero (some n) = n

abbrev size_at : Option Node → ℕ
size_at (some (file f)) = f.size
size_at _ = 0

abbrev pub is_creating : SnapFile → World → Bool
is_creating f w = is_some (node_at (creating (snap_file_path f.0 f.1)) w)

abbrev pub snapshot_of : Bool → World → SnapFile → Snapshot
snapshot_of temporary w f = record {
  name = f.1;
  volume_id = file_name (parent f.0);
  size_bytes = size_at (node_at (snap_file_path f.0 f.1) w);
  snapshot_id = file_name (parent f.0) ++ "/" ++ f.1;
  ready = not (is_creating f w);
  temporary = temporary;
}

abbrev pub skipped : Option Bool → Bool → Bool
skipped none creating = false
skipped (some true) creating = creating
skipped (some false) creating = not creating

module _ (offset limit : ℕ) (ready : Option Bool) (temporary : Bool) (w : World) where
  -- `for idx, snap_filename in enumerate(snapshot_files)`, from `idx` on with `count` snapshots found.
  -- It gives those that it finds, and the value that `idx` has in the end.
  unfoldable pub scan : ℕ → ℕ → List SnapFile → List Snapshot × ℕ
  scan idx count [] = ([], idx - 1)
  scan idx count (f ∷ fs) =
      let next = scan (suc idx) count fs in
      let more = scan (suc idx) (suc count) fs in
      if ltb idx offset || skipped ready (is_creating f w)
      then next
      else if ltb 0 limit && leb limit (suc count)
      then (snapshot_of temporary w f ∷ [], idx)
      else (snapshot_of temporary w f ∷ more.0, more.1)

-- The list of the snapshots that were found, from `offset` on and at most `limit` of them.
unfoldable pub page :
    Option ℕ → Option ℕ → Option Bool → Bool → List SnapFile → World → SnapshotList
page offset limit ready temporary files w =
    let r = scan (or_zero offset) (or_zero limit) ready temporary w 0 0 files in
    record {
      snapshots = r.0;
      next_token =
          if ltb 0 (or_zero offset) && not (is_empty r.0) && ltb (r.1 + 1) (length files)
          then some (or_zero offset + length r.0)
          else none;
    }

-- The pool that the metadata of a volume name.
abbrev pub pool_named : Value → Exec World StoragePool
pool_named v = lift (as_text v) >>= λ pool.
    λ w. or_raise (lookup pool w.config.storage_pools) (key_error pool) w

module _ (offset limit : Option ℕ) (volume_id name : String) (temporary : Bool) where
  abbrev pub matching_snapshot : StoragePool → Exec World SnapshotList
  matching_snapshot p w =
      let d = child (child p.path volume_id) "snapshots" in
      let folder = if temporary then child d "temp" else d in
      pure
        (page offset limit none temporary
          (if is_some (node_at (snap_file_path folder name) w) then (folder, name) ∷ [] else []) w)
        w

  abbrev pub snapshot_in_pool : Json → Exec World SnapshotList
  snapshot_in_pool meta =
      lift (item "storage_pool" meta) >>= λ v. pool_named v >>= matching_snapshot

  -- The list for one volume and one name, whose pattern has at most one match.
  unfoldable pub find_snapshot_page : Exec World SnapshotList
  find_snapshot_page = metadata volume_id >>= snapshot_in_pool

unfoldable pub find_snapshot : String → String → Bool → Exec World SnapshotList
unfolding find_snapshot_page
find_snapshot volume_id name temporary = find_snapshot_page none none volume_id name temporary

module _ (offset limit : ℕ) (temporary : Bool) (w : World) where
  -- What the loop finds from index `idx` on, with `k` entries to skip and `suc j` to take.
  pub scan-take-drop :
      (j k idx count : ℕ) (files : List SnapFile)
      → offset - idx ≡ k
      → limit ≡ count + suc j
      → (scan offset limit none temporary w idx count files).0
        ≡ map (snapshot_of temporary w) (take (suc j) (drop k files))
  unfolding scan
  scan-take-drop j zero idx count [] h g = refl
  scan-take-drop j (suc k) idx count [] h g = refl
  scan-take-drop j (suc k) idx count (f ∷ fs) h g =
      rw (lt→ltb idx offset (omega (arith, h)))
        (scan-take-drop j k (suc idx) count fs (omega (arith, h)) g)
  scan-take-drop zero zero idx count (f ∷ fs) h g =
      rw
        (
          ltb_no idx offset (omega (arith, h)),
          lt→ltb 0 limit (omega (arith, g)),
          le→leb limit (suc count) (omega (arith, g)),
        )
        refl
  scan-take-drop (suc j) zero idx count (f ∷ fs) h g =
      rw
        (
          ltb_no idx offset (omega (arith, h)),
          lt→ltb 0 limit (omega (arith, g)),
          leb_no limit (suc count) (omega (arith, g)),
        )
        (ap (λ xs. snapshot_of temporary w f ∷ xs)
          (scan-take-drop j zero (suc idx) (suc count) fs (omega (arith, h)) (omega (arith, g))))

-- A list that is limited to `suc j` snapshots, of any readiness, gives those files that stand after
-- the first `offset` ones, in their order and up to the limit. It gives no token for a next page
-- when there is no offset, however many files are left.
pub page-take-drop :
    (offset : Option ℕ) (j : ℕ) (temporary : Bool) (files : List SnapFile) (w : World)
    → ((page offset (some (suc j)) none temporary files w).snapshots
        ≡ map (snapshot_of temporary w) (take (suc j) (drop (or_zero offset) files)))
      × ((page none (some (suc j)) none temporary files w).next_token ≡ none)
unfolding page
page-take-drop offset j temporary files w = (
  scan-take-drop (or_zero offset) (suc j) temporary w j (or_zero offset) 0 0 files (omega arith)
      (omega arith),
  refl,
)

module _ (offset limit : ℕ) (temporary : Bool) (w : World) where
  -- The last index that the loop reaches, when there are as many files as it looks for.
  pub scan-idx_full :
      (j k idx count : ℕ) (files : List SnapFile)
      → offset - idx ≡ k
      → limit ≡ count + suc j
      → k + suc j ≤ length files
      → (scan offset limit none temporary w idx count files).1 ≡ idx + k + j
  unfolding scan
  scan-idx_full j k idx count [] h g e = omega (arith, e)
  scan-idx_full j (suc k) idx count (f ∷ fs) h g e =
      rw (lt→ltb idx offset (omega (arith, h)))
        (scan-idx_full j k (suc idx) count fs (omega (arith, h)) g (omega (arith, e)) ∙ omega arith)
  scan-idx_full zero zero idx count (f ∷ fs) h g e =
      rw
        (
          ltb_no idx offset (omega (arith, h)),
          lt→ltb 0 limit (omega (arith, g)),
          le→leb limit (suc count) (omega (arith, g)),
        )
        (omega arith)
  scan-idx_full (suc j) zero idx count (f ∷ fs) h g e =
      rw
        (
          ltb_no idx offset (omega (arith, h)),
          lt→ltb 0 limit (omega (arith, g)),
          leb_no limit (suc count) (omega (arith, g)),
        )
        (scan-idx_full j zero (suc idx) (suc count) fs (omega (arith, h)) (omega (arith, g))
            (omega (arith, e))
          ∙ omega arith)

  -- It is that of the last file when there are fewer.
  pub scan-idx_short :
      (j k idx count : ℕ) (files : List SnapFile)
      → offset - idx ≡ k
      → limit ≡ count + suc j
      → length files < k + suc j
      → (scan offset limit none temporary w idx count files).1 ≡ (idx + length files) - 1
  unfolding scan
  scan-idx_short j k idx count [] h g e = omega arith
  scan-idx_short j (suc k) idx count (f ∷ fs) h g e =
      rw (lt→ltb idx offset (omega (arith, h))) (
        scan-idx_short j k (suc idx) count fs (omega (arith, h)) g (omega (arith, e)) ∙ omega arith)
  scan-idx_short zero zero idx count (f ∷ fs) h g e = absurd (omega (arith, e))
  scan-idx_short (suc j) zero idx count (f ∷ fs) h g e =
      rw
        (
          ltb_no idx offset (omega (arith, h)),
          lt→ltb 0 limit (omega (arith, g)),
          leb_no limit (suc count) (omega (arith, g)),
        )
        (scan-idx_short j zero (suc idx) (suc count) fs (omega (arith, h)) (omega (arith, g))
            (omega (arith, e))
          ∙ omega arith)

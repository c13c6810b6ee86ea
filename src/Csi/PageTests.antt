-- ===== src/Csi/PageTests.antt =====
-- The list of snapshots at a concrete state.
use rawfile_localpv.Prelude.{
  ℕ, ◌≡◌, refl, false, Option, none, some, List, [], ◌∷◌, String, length, take, drop, map,
  if◌then◌else◌, ltb, str_eq,
}
use rawfile_localpv.Paths.{root}
use rawfile_localpv.Errors.{ok, err, aborted, invalid_argument}
use rawfile_localpv.Node.World.{World}
use rawfile_localpv.Node.Examples.{empty_world}
use rawfile_localpv.Volumes.Paging.{SnapFile, snapshot_of}
use rawfile_localpv.Csi.Listing.{list_snapshots_call, list_snapshots_call-parts}

abbrev found : World → List SnapFile
found w = (root, "a") ∷ (root, "b") ∷ (root, "c") ∷ []

abbrev parsed : String → Option ℕ
parsed s = if str_eq s "1" then some 1 else if str_eq s "2" then some 2 else none

abbrev written : ℕ → String
written n = if ltb n 2 then "1" else "2"

list_snapshots_call-parts_example :
    let ask = λ (t : String).
      list_snapshots_call found parsed written
        (record { snapshot_id = ""; starting_token = t; max_entries = 1 })
        empty_world in
    (ask "" ≡ (
      ok (record {
        entries = map (snapshot_of false empty_world) (take 1 (found empty_world));
        next_token = "None";
      }),
      empty_world,
    ))
    × (parsed "1" ≡ some 1
        → ask "1" ≡ (
          ok (record {
            entries = map (snapshot_of false empty_world) (take 1 (drop 1 (found empty_world)));
            next_token = if ltb 2 (length (found empty_world)) then written 2 else "None";
          }),
          empty_world,
        ))
    × (parsed "1" ≡ none
        → ask "1" ≡ (err (aborted invalid_argument "invalid starting_token"), empty_world))
list_snapshots_call-parts_example =
    list_snapshots_call-parts found parsed written 0 0 "1" empty_world refl refl

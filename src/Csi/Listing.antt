-- ===== src/Csi/Listing.antt =====
-- rawfile/bd2fs.py: ListSnapshots. `glob` gives the images of snapshots that are found in the pools, in their
-- order; `parse_int` and `str_of` are Python's `int` and `str`. A token that is the text of a negative
-- number, which the driver never gives, is left out.
use rawfile_localpv.Prelude.{
  ℕ, suc, ◌+◌, ◌≡◌, refl, ap, ◌∙◌, Bool, true, false, not, Option, none, some, List, String, take,
  drop, map, length, if◌then◌else◌, str_eq, ltb, lt→ltb, arith,
}
use rawfile_localpv.Errors.{Result, ok, err, aborted, unimplemented, invalid_argument, value_error}
use rawfile_localpv.Exec.{
  Exec, ◌>>=◌, ◌>>◌, pure, or_raise, raise_if, proceed, >>=-eq_of_ok, >>=-eq_of_err,
}
use rawfile_localpv.Node.World.{World}
use rawfile_localpv.Volumes.Snapshots.{Snapshot, SnapshotList}
use rawfile_localpv.Volumes.Paging.{SnapFile, snapshot_of, page, page-take-drop, find_snapshot_page}
use rawfile_localpv.Volumes.Tokens.{page-next_token}
use rawfile_localpv.Volumes.Split.{rsplit_slash}

pub record ListSnapshotsRequest : Type 0 where
  pub snapshot_id : String
  pub starting_token : String
  pub max_entries : ℕ

pub record ListSnapshotsResponse : Type 0 where
  pub entries : List Snapshot
  pub next_token : String

-- `request.max_entries or None`
abbrev limit_of : ℕ → Option ℕ
limit_of n = if ltb 0 n then some n else none

module _ (glob : World → List SnapFile) (parse_int : String → Option ℕ) (str_of : ℕ → String) where
  -- `int(request.starting_token) if request.starting_token else None`
  abbrev offset_of : String → Exec World (Option ℕ)
  offset_of token =
      if str_eq token ""
      then pure none
      else or_raise (parse_int token) (aborted invalid_argument "invalid starting_token") >>= λ n.
          pure (some n)

  -- `snapshot_id.rsplit("/", 1)`, whose two parts are taken apart.
  abbrev source_of : String → Exec World (Option (String × String))
  source_of id =
      if str_eq id ""
      then pure none
      else or_raise (rsplit_slash id) value_error >>= λ p. pure (some p)

  abbrev list_snapshots : Option (String × String) → Option ℕ → Option ℕ → Exec World SnapshotList
  list_snapshots none offset limit w = (ok (page offset limit none false (glob w) w), w)
  list_snapshots (some p) offset limit w = find_snapshot_page offset limit p.0 p.1 false w

  -- `str(snapshot_list.next_token)`
  abbrev text_of_token : Option ℕ → String
  text_of_token none = "None"
  text_of_token (some n) = str_of n

  abbrev answer : SnapshotList → ListSnapshotsResponse
  answer l = record { entries = l.snapshots; next_token = text_of_token l.next_token }

  abbrev list_after :
      ListSnapshotsRequest → Option (String × String) → Exec World ListSnapshotsResponse
  list_after request source = offset_of request.starting_token >>= λ offset.
      list_snapshots source offset (limit_of request.max_entries) >>= λ l. pure (answer l)

  -- `ListSnapshots`
  unfoldable pub list_snapshots_call : ListSnapshotsRequest → Exec World ListSnapshotsResponse
  list_snapshots_call request w =
      (raise_if (not w.config.snapshots_enabled)
            (aborted unimplemented "Snapshotting capabilities are disabled.")
          >> source_of request.snapshot_id
          >>= list_after request)
        w

  text_of_token-if :
      (b : Bool) (n : ℕ)
      → text_of_token (if b then some n else none) ≡ (if b then str_of n else "None")
  text_of_token-if true n = refl
  text_of_token-if false n = refl

  abbrev list_part : ℕ → Option ℕ → Exec World ListSnapshotsResponse
  list_part max_entries offset =
      list_snapshots none offset (limit_of max_entries) >>= λ l. pure (answer l)

  enabled-eq :
      (j : ℕ) (token : String) (w : World)
      → w.config.snapshots_enabled ≡ true
      → list_snapshots_call
          (record { snapshot_id = ""; starting_token = token; max_entries = suc j })
          w
        ≡ (offset_of token >>= list_part (suc j)) w
  unfolding list_snapshots_call
  enabled-eq j token w on =
      ap
        (λ b.
          proceed
            (list_after (record { snapshot_id = ""; starting_token = token; max_entries = suc j }))
            (proceed (λ _. source_of "")
              (raise_if (not b) (aborted unimplemented "Snapshotting capabilities are disabled.")
                w)))
        on

  part_eq :
      (offset : Option ℕ) (j : ℕ) (w : World)
      → list_part (suc j) offset w
        ≡ (ok (answer (page offset (some (suc j)) none false (glob w) w)), w)
  part_eq offset j w =
      ap
        (λ b.
          (ok (answer (page offset (if b then some (suc j) else none) none false (glob w) w)), w))
        (lt→ltb 0 (suc j) (omega arith))

  answer_eq :
      (l : SnapshotList) (entries : List Snapshot) (next : String)
      → l.snapshots ≡ entries
      → text_of_token l.next_token ≡ next
      → (w : World)
      → ◌≡◌ {A = Result ListSnapshotsResponse × World}
          (ok (answer l), w)
          (ok (record { entries = entries; next_token = next }), w)
  answer_eq l entries next e f w = rw (e, f) refl

  -- A list of all snapshots, in the parts that `suc j` entries make: the first part holds the first
  -- ones, and its token is "None" however many are left; a part that starts at the token of a
  -- position holds those from there on, with the token of the next position if there are more and
  -- "None" otherwise; and a token that is no number, as "None" is, is refused. The state is as it
  -- was in each case.
  pub list_snapshots_call-parts :
      (n j : ℕ) (token : String) (w : World)
      → w.config.snapshots_enabled ≡ true
      → str_eq token "" ≡ false
      → let ask = λ (t : String).
        list_snapshots_call
          (record { snapshot_id = ""; starting_token = t; max_entries = suc j })
          w in
        (ask "" ≡ (
          ok (record {
            entries = map (snapshot_of false w) (take (suc j) (glob w));
            next_token = "None";
          }),
          w,
        ))
        × (parse_int token ≡ some (suc n)
            → ask token ≡ (
              ok (record {
                entries = map (snapshot_of false w) (take (suc j) (drop (suc n) (glob w)));
                next_token =
                    if ltb (suc n + suc j) (length (glob w))
                    then str_of (suc n + suc j)
                    else "None";
              }),
              w,
            ))
        × (parse_int token ≡ none
            → ask token ≡ (err (aborted invalid_argument "invalid starting_token"), w))
  list_snapshots_call-parts n j token w on ne = (
    enabled-eq j "" w on ∙ part_eq none j w ∙ answer_eq _ _ _ first.0 (ap text_of_token first.1) w,
    λ p.
        let next = page-next_token n j false (glob w) w in
        enabled-eq j token w on
        ∙ >>=-eq_of_ok (offset_of token) (list_part (suc j)) (rw (ne, p) refl)
        ∙ part_eq (some (suc n)) j w
        ∙ answer_eq _ _ _ (page-take-drop (some (suc n)) j false (glob w) w).0
            (ap text_of_token next ∙ text_of_token-if _ (suc n + suc j)) w,
    λ p.
        enabled-eq j token w on
        ∙ >>=-eq_of_err (offset_of token) (list_part (suc j)) (rw (ne, p) refl),
  )
    where
      first :
          ((page none (some (suc j)) none false (glob w) w).snapshots
            ≡ map (snapshot_of false w) (take (suc j) (glob w)))
          × ((page none (some (suc j)) none false (glob w) w).next_token ≡ none)
      first = page-take-drop none j false (glob w) w

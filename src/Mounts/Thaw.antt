-- ===== src/Mounts/Thaw.antt =====
-- rawfile/filesystem/base.py and rawfile/filesystem/xfs.py: what freezing and unfreezing leave of a mounted
-- file system. The program that freezes or thaws it is given whether it is frozen, and gives how its run
-- ended and whether the file system is frozen then.
use rawfile_localpv.Prelude.{◌≡◌, refl, ◌∙◌, subst, Bool, true, false, String, if◌then◌else◌}
use rawfile_localpv.Errors.{ok}
use rawfile_localpv.Mounts.System.{FileSystemName, xfs, ext4, btrfs}
use rawfile_localpv.Mounts.Freeze.{
  Outcome, success, failure, no_run, occurs, operation_failed, freeze, unfreeze_base, unfreeze_xfs,
  unfreeze,
}

abbrev pub Tool : Type 0
Tool = Bool → Outcome × Bool

-- fsfreeze and `xfs_freeze -f`: after a success the file system is frozen, and a run fails with a busy
-- device only where it is frozen already, and leaves it so.
pub record IsFreezer (run : Tool) : Type 0 where
  pub freezes : (b : Bool) → (run b).0 ≡ success → (run b).1 ≡ true
  pub busy :
      (b : Bool) (s : String)
      → (run b).0 ≡ failure s
      → occurs "Device or resource busy" s ≡ true
      → b ≡ true
  pub keeps : (b : Bool) (s : String) → (run b).0 ≡ failure s → (run b).1 ≡ b

-- Their inverses: after a success the file system is thawed, and a run fails with an invalid argument
-- only where it is not frozen, and leaves it so.
pub record IsThawer (run : Tool) : Type 0 where
  pub thaws : (b : Bool) → (run b).0 ≡ success → (run b).1 ≡ false
  pub invalid :
      (b : Bool) (s : String)
      → (run b).0 ≡ failure s
      → occurs "Invalid argument" s ≡ true
      → b ≡ false
  pub still : (b : Bool) (s : String) → (run b).0 ≡ failure s → (run b).1 ≡ b

abbrev pub is_xfs : FileSystemName → Bool
is_xfs xfs = true
is_xfs _ = false

test-of_ok :
    (b : Bool) (operation : String) (kind : FileSystemName)
    → (if b then ok tt else operation_failed operation kind) ≡ ok tt
    → b ≡ true
test-of_ok true operation kind e = refl
test-of_ok false operation kind e = cc

freeze-frozen :
    (kind : FileSystemName) (run : Tool) (b : Bool) (o : Outcome)
    → IsFreezer run
    → (run b).0 ≡ o
    → freeze kind o ≡ ok tt
    → (run b).1 ≡ true
unfolding freeze
freeze-frozen kind run b success f q e = f.freezes b q
freeze-frozen kind run b (failure s) f q e =
    f.keeps b s q ∙ f.busy b s q (test-of_ok (occurs "Device or resource busy" s) "freeze" kind e)
freeze-frozen kind run b (no_run x) f q e = cc

base-thawed :
    (kind : FileSystemName) (run : Tool) (b : Bool) (o : Outcome)
    → IsThawer run
    → (run b).0 ≡ o
    → unfreeze_base kind o ≡ ok tt
    → (run b).1 ≡ false
unfolding unfreeze_base
base-thawed kind run b success f q e = f.thaws b q
base-thawed kind run b (failure s) f q e =
    f.still b s q ∙ f.invalid b s q (test-of_ok (occurs "Invalid argument" s) "unfreeze" kind e)
base-thawed kind run b (no_run x) f q e = cc

-- When freezing and then unfreezing an ext4 or a btrfs both return normally, the file system was frozen in
-- between and is thawed in the end, where the programs do what they are documented to do.
pub freeze-unfreeze-thawed :
    (kind : FileSystemName) (freezer thawer : Tool) (b : Bool)
    → is_xfs kind ≡ false
    → IsFreezer freezer
    → IsThawer thawer
    → freeze kind (freezer b).0 ≡ ok tt
    → unfreeze kind (thawer (freezer b).1).0 ≡ ok tt
    → ((freezer b).1 ≡ true) × ((thawer (freezer b).1).1 ≡ false)
unfolding unfreeze
freeze-unfreeze-thawed xfs freezer thawer b x f t p q = cc
freeze-unfreeze-thawed ext4 freezer thawer b x f t p q =
    (freeze-frozen ext4 freezer b _ f refl p, base-thawed ext4 thawer (freezer b).1 _ t refl q)
freeze-unfreeze-thawed btrfs freezer thawer b x f t p q =
    (freeze-frozen btrfs freezer b _ f refl p, base-thawed btrfs thawer (freezer b).1 _ t refl q)

-- A program that fails for another reason and leaves the file system as it is.
abbrev pub failing_tool : Tool
failing_tool b = (failure "Input/output error", b)

failing_tool-IsThawer : IsThawer failing_tool
failing_tool-IsThawer = record {
  thaws = λ b q. cc;
  invalid = λ b s q o.
      let same : s ≡ "Input/output error" = cc in
      let found : occurs "Invalid argument" "Input/output error" ≡ true =
        subst (λ x. occurs "Invalid argument" x ≡ true) same o in
      cc;
  still = λ b s q. refl;
}

-- Unfreezing an xfs can return normally and leave it frozen, with a program that does what is documented
-- and fails for another reason than that the file system was not frozen.
pub xfs_left_frozen :
    (thawer : Tool) × IsThawer thawer
    × (unfreeze xfs (thawer true).0 ≡ ok tt)
    × ((thawer true).1 ≡ true)
unfolding unfreeze unfreeze_xfs
xfs_left_frozen = (failing_tool, failing_tool-IsThawer, refl, refl)

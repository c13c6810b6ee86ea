-- ===== src/Mounts/Tests.antt =====
-- The theorems on mounts at a concrete kernel: a table of mounts, and the types of file systems on devices.
use rawfile_localpv.Prelude.{
  ◌≡◌, refl, Bool, true, false, Option, none, some, List, [], ◌∷◌, String, if◌then◌else◌, lookup,
}
use rawfile_localpv.Paths.{FilePath, root, child, path_eq, as_posix}
use rawfile_localpv.Errors.{
  ok, err, invalid_device_for_mountpoint, called_process, volume_not_ready,
}
use rawfile_localpv.Node.Files.{dir, find, children, json_file}
use rawfile_localpv.Node.World.{World, with_files, node_at, rmdir}
use rawfile_localpv.Node.Metadata.{be_absent}
use rawfile_localpv.Node.Examples.{empty_world}
use rawfile_localpv.Mounts.System.{ext4, xfs, System, Programs, Program, get_device_for_mountpoint}
use rawfile_localpv.Mounts.FileSystems.{FileSystem, file_system, format_and_mount}
use rawfile_localpv.Mounts.Declarative.{mount, unmount}
use rawfile_localpv.Mounts.Refusal.{format_and_mount-keeps_data}
use rawfile_localpv.Mounts.Volumes.{clear_deleted_volume, refuse_mounted, clear_paths}
use rawfile_localpv.Mounts.Clearing.{IsTornDown, some_mounted}
use rawfile_localpv.Mounts.Thaw.{Tool, IsFreezer, IsThawer, freeze-unfreeze-thawed}
use rawfile_localpv.Mounts.Freeze.{
  freeze, success, occurs, unfreeze_base, failure, unfreeze, unfreeze_xfs,
}
use rawfile_localpv.Mounts.Lifecycle.{IsMountable, IsMountedAt, cleared, mount_unmount}
use rawfile_localpv.Exec.{Exec}
use rawfile_localpv.Node.Metadata.{meta_file, meta_dir, lock_file}
use rawfile_localpv.Mounts.Volumes.{
  volume_deleted, node_unpublish_volume, node_unstage_volume, VolumeRequest, block,
  node_publish_volume, node_stage_volume,
}
use rawfile_localpv.Mounts.NotReady.{freed_system, stage_publish-refuse_unready}
use rawfile_localpv.Json.{bool}
use rawfile_localpv.Mounts.Teardown.{staged_mounts, staged_paths, teardown-IsTornDown}

record Kernel : Type 0 where
  mounts : List (FilePath × FilePath)
  types : List (FilePath × String)

abbrev at {ℓ} : {A : Type ℓ} → FilePath → List (FilePath × A) → Option A
at p [] = none
at p ((q, a) ∷ rest) = if path_eq q p then some a else at p rest

abbrev without {ℓ} : {A : Type ℓ} → FilePath → List (FilePath × A) → List (FilePath × A)
without p [] = []
without p ((q, a) ∷ rest) = if path_eq q p then rest else (q, a) ∷ without p rest

abbrev loop_device : FilePath
loop_device = child (child root "dev") "loop0"

abbrev other_device : FilePath
other_device = child (child root "dev") "loop1"

abbrev programs : Programs Kernel
programs = record {
  resolve = λ p _. p;
  is_block_device = λ p _ _. path_eq p loop_device;
  findmnt = λ p k. at p k.mounts;
  target_of = λ d k. none;
  blkid = λ d k. at d k.types;
  mkfs = λ kind _ d k. (ok tt, record k { types = (d, file_system kind) ∷ k.types });
  bootstrap = λ _ d _ k. (ok tt, record k { types = (d, "btrfs") ∷ k.types });
  mount = λ _ _ d p k. (ok tt, record k { mounts = (p, d) ∷ k.mounts });
  bind = λ _ d p k. (ok tt, record k { mounts = (p, d) ∷ k.mounts });
  umount = λ p k. (ok tt, record k { mounts = without p k.mounts });
  grow = λ _ _ k. (ok tt, k);
}

abbrev folder : FilePath
folder = child root "mnt"

abbrev node : World
node = with_files ((folder, dir) ∷ (root, dir) ∷ []) empty_world

abbrev kernel : Kernel
kernel = record { mounts = []; types = (loop_device, "ext4") ∷ [] }

abbrev mounted : Kernel
mounted = record kernel { mounts = (folder, loop_device) ∷ [] }

abbrev system : System Kernel
system = record { node = node; kernel = kernel }

system-IsMountable : IsMountable programs ext4 loop_device folder system
unfolding find children
system-IsMountable = record {
  resolved = refl;
  known = refl;
  block = refl;
  folder = refl;
  folder_path = refl;
  not_device = refl;
  empty = refl;
  unmounted = refl;
}

mounted-IsMountedAt : IsMountedAt programs ext4 loop_device folder node mounted
mounted-IsMountedAt = record {
  source = refl;
  still_known = refl;
  still_block = refl;
  still_folder = refl;
}

mount_unmount_example :
    let s1 : System Kernel = record system { kernel = mounted } in
    let s2 = cleared programs folder node kernel in
    (mount programs loop_device folder false [] system ≡ (ok tt, s1))
    × (get_device_for_mountpoint programs folder s1 ≡ some loop_device)
    × (mount programs loop_device folder false [] s1 ≡ (ok tt, s1))
    × (mount programs other_device folder false [] s1
        ≡ (err (invalid_device_for_mountpoint (as_posix loop_device) (as_posix folder)), s1))
    × (unmount programs folder true s1 ≡ (ok tt, s2))
    × (get_device_for_mountpoint programs folder s2 ≡ none)
    × (node_at folder s2.node ≡ none)
    × (unmount programs folder true s2 ≡ (ok tt, s2))
mount_unmount_example =
    mount_unmount programs ext4 loop_device folder other_device system mounted kernel false []
      system-IsMountable refl mounted-IsMountedAt refl refl refl refl

abbrev busy : System Kernel
busy = record system { kernel = mounted }

abbrev other_fs : FileSystem
other_fs = record { kind = xfs; device = other_device; mountpoint = none }

abbrev loop_fs : FileSystem
loop_fs = record { kind = xfs; device = loop_device; mountpoint = some folder }

abbrev failing : FilePath → Program Kernel
failing d k = (err called_process, k)

format_and_mount-keeps_data_example :
    format_and_mount programs (child root "tmp") none [] [] loop_fs system
    ≡ format_and_mount
        (record programs { mkfs = λ _ _ d. failing d; bootstrap = λ _ d _. failing d })
        (child root "tmp")
        none
        []
        []
        loop_fs
        system
format_and_mount-keeps_data_example =
    format_and_mount-keeps_data programs (λ _ _ d. failing d) (λ _ d _. failing d)
      (child root "tmp") none [] [] loop_fs system refl

abbrev attach_none : FilePath → Exec World FilePath
attach_none image w = (err called_process, w)

abbrev detach_none : FilePath → Exec World Unit
detach_none image w = (ok tt, w)

teardown-IsTornDown_example :
    IsTornDown programs
      (some_mounted programs (folder ∷ []) busy)
      (folder ∷ [])
      busy
      (node_unpublish_volume programs "v" folder busy)
    × IsTornDown programs
        (some_mounted programs (staged_mounts folder) busy)
        (staged_paths folder)
        busy
        (node_unstage_volume programs attach_none detach_none
          (child root "tmp")
          "ext4"
          "v"
          folder
          busy)
unfolding volume_deleted meta_file meta_dir find
teardown-IsTornDown_example =
    teardown-IsTornDown programs attach_none detach_none (child root "tmp") "ext4" "v" folder folder
      busy refl

-- Something is mounted at the folder, so that its unpublishing is refused.
folder_is_busy : some_mounted programs (folder ∷ []) busy ≡ true
unfolding get_device_for_mountpoint
folder_is_busy = refl

torn_down :
    clear_deleted_volume programs "v" (folder ∷ []) (folder ∷ []) system
    ≡ (ok tt, cleared programs folder node kernel)
unfolding clear_deleted_volume refuse_mounted get_device_for_mountpoint clear_paths be_absent find
    rmdir children
torn_down = refl

-- A volume that was made and has not been filled yet.
abbrev unready_system : System Kernel
unready_system = record system {
  node =
      with_files
        ((child (child (child root "meta") "v") "disk.meta", json_file (("ready", bool false) ∷ []))
          ∷ (child (child root "meta") "v", dir)
          ∷ node.files)
        node;
}

abbrev request_of_v : VolumeRequest
request_of_v = record {
  volume_id = "v";
  staging_target_path = child root "staging";
  target_path = folder;
  access_type = block;
  readonly = false;
  mount_flags = [];
  fs_type = "ext4";
  format_options = [];
}

stage_publish-refuse_unready_example :
    (node_stage_volume programs attach_none detach_none
        (child root "tmp")
        "ext4"
        request_of_v
        unready_system
      ≡ (err (volume_not_ready "v"), freed_system "v" unready_system))
    × (node_publish_volume programs request_of_v unready_system
        ≡ (err (volume_not_ready "v"), freed_system "v" unready_system))
unfolding find lock_file meta_dir meta_file lookup
stage_publish-refuse_unready_example =
    stage_publish-refuse_unready programs attach_none detach_none (child root "tmp") "ext4"
      request_of_v (("ready", bool false) ∷ []) unready_system refl refl refl refl refl

-- A run of xfs_freeze that failed, after which the file system may still be frozen, counts as a success.
xfs_unfreeze_failed :
    unfreeze xfs (failure "xfs_freeze: cannot unfreeze filesystem: Input/output error") ≡ ok tt
unfolding unfreeze unfreeze_xfs
xfs_unfreeze_failed = refl

abbrev freezer : Tool
freezer false = (success, true)
freezer true = (failure "Device or resource busy", true)

abbrev thawer : Tool
thawer true = (success, false)
thawer false = (failure "Invalid argument", false)

freezer-IsFreezer : IsFreezer freezer
freezer-IsFreezer = record {
  freezes = λ b q. elim b as (λ c. (freezer c).1 ≡ true) [ true ↦ refl | false ↦ refl ];
  busy = busy;
  keeps = keeps;
}
  where
    busy :
        (b : Bool) (s : String)
        → (freezer b).0 ≡ failure s
        → occurs "Device or resource busy" s ≡ true
        → b ≡ true
    busy true s q o = refl
    busy false s q o = cc

    keeps : (b : Bool) (s : String) → (freezer b).0 ≡ failure s → (freezer b).1 ≡ b
    keeps true s q = refl
    keeps false s q = cc

thawer-IsThawer : IsThawer thawer
thawer-IsThawer = record {
  thaws = λ b q. elim b as (λ c. (thawer c).1 ≡ false) [ true ↦ refl | false ↦ refl ];
  invalid = invalid;
  still = still;
}
  where
    invalid :
        (b : Bool) (s : String)
        → (thawer b).0 ≡ failure s
        → occurs "Invalid argument" s ≡ true
        → b ≡ false
    invalid false s q o = refl
    invalid true s q o = cc

    still : (b : Bool) (s : String) → (thawer b).0 ≡ failure s → (thawer b).1 ≡ b
    still false s q = refl
    still true s q = cc

freeze-unfreeze-thawed_example : ((freezer true).1 ≡ true) × ((thawer (freezer true).1).1 ≡ false)
unfolding freeze unfreeze unfreeze_base
freeze-unfreeze-thawed_example =
    freeze-unfreeze-thawed ext4 freezer thawer true refl freezer-IsFreezer thawer-IsThawer refl refl

-- ===== src/Csi/Tests.antt =====
-- The theorems on the services at a concrete node.
use rawfile_localpv.Prelude.{◌-ℤ◌, ◌≡◌, refl, [], ◌∷◌, none, some, true, lookup}
use rawfile_localpv.Paths.{FilePath, root, child}
use rawfile_localpv.Errors.{ok, err, aborted, resource_exhausted}
use rawfile_localpv.Node.Files.{dir, link, json_file, find}
use rawfile_localpv.Node.World.{World, node_at, read_json}
use rawfile_localpv.Node.Examples.{empty_world, pool_dir, example_host}
use rawfile_localpv.Json.{Json, path, num, text}
use rawfile_localpv.Node.Metadata.{
  img_file, metadata_or, metadata, meta_file, meta_dir, get_volume_path,
}
use rawfile_localpv.Volumes.Destroy.{get_volumes_stats_by_pool, list_all_volumes, volumes_of}
use rawfile_localpv.Volumes.Capacity.{
  get_capacity, statvfs, capacity_left, reserved_capacity_handlers, plain_reserved_capacity_handler,
}
use rawfile_localpv.Csi.Deletion.{delete_volume_call}
use rawfile_localpv.Csi.InUse.{delete_volume_call-attached}
use rawfile_localpv.Csi.Publish.{
  node_publish_volume, node_unpublish_volume, published, unpublished, publish_unpublish,
}
use rawfile_localpv.Csi.Provision.{plan_volume, plan_volume-eq}
use rawfile_localpv.Json.{bool}
use rawfile_localpv.Errors.{volume_not_ready}
use rawfile_localpv.Exec.{Exec, ◌>>◌, pure}
use rawfile_localpv.Node.Files.{file}
use rawfile_localpv.Node.Metadata.{lock_file}
use rawfile_localpv.Prelude.{arith}
use rawfile_localpv.Volumes.Create.{create_volume}
use rawfile_localpv.Volumes.Unready.{plain_request, without_lock, started}
use rawfile_localpv.Csi.Stage.{node_stage_volume, stage-after_create}
use rawfile_localpv.Prelude.{ℕ, zero, suc, ◌+◌, List, String, false, length}
use rawfile_localpv.Json.{Value}
use rawfile_localpv.Schema.Versions.{Post}
use rawfile_localpv.Tasks.Defs.{TaskName}
use rawfile_localpv.Csi.Provision.{CreateVolumeRequest}
use rawfile_localpv.Csi.Waiting.{Driver, CreationOptions, create_volume_call, create_snapshot_call}
use rawfile_localpv.Csi.Deadline.{AllSleep, has_ended, create-end}

abbrev target : FilePath
target = child pool_dir "target"

abbrev staging : FilePath
staging = child root "staging"

publish_unpublish_example :
    let w1 = published target staging empty_world in
    let w2 = unpublished target staging empty_world in
    (node_publish_volume target staging empty_world ≡ (ok tt, w1))
    × (node_at target w1 ≡ some (link (child staging "dev")))
    × (node_publish_volume target staging w1 ≡ (ok tt, w1))
    × (node_unpublish_volume target w1 ≡ (ok tt, w2))
    × (node_at target w2 ≡ none)
    × (node_unpublish_volume target w2 ≡ (ok tt, w2))
unfolding find
publish_unpublish_example = publish_unpublish target staging empty_world refl refl

plan_volume-eq_example :
    plan_volume "node"
      (record {
        capabilities = record { is_single_node_writer = true; access_type = some "mount" } ∷ [];
        required_bytes = 5;
        storage_pool = some "default";
        preferred = (("node", "n1") ∷ []) ∷ [];
        source_snapshot_id = "";
        source_volume_id = "other";
      })
      empty_world
    ≡ (err (aborted resource_exhausted "Insufficient disk space"), empty_world)
unfolding lookup get_capacity statvfs find get_volumes_stats_by_pool list_all_volumes volumes_of
    capacity_left ◌-ℤ◌ reserved_capacity_handlers plain_reserved_capacity_handler
plan_volume-eq_example =
    plan_volume-eq "default" "node" "n1" "mount" "" "other" 5 50000 (("node", "n1") ∷ []) [] _
      empty_world refl refl refl refl refl

abbrev metadata_items : Json
metadata_items =
    ("img_file", path (child (child pool_dir "v") "disk.img"))
    ∷ ("size", num 5)
    ∷ ("storage_pool", text "default")
    ∷ []

-- A volume whose image is attached to the first loop device.
abbrev attached_world : World
attached_world = record empty_world {
  files =
      (child (child (child root "meta") "v") "disk.meta", json_file metadata_items)
      ∷ (child pool_dir "v", dir)
      ∷ [];
  host = record example_host { losetup_j = λ _. "/dev/loop0" ∷ [] };
}

delete_volume_call-attached_example : (delete_volume_call "v" attached_world).1 ≡ attached_world
unfolding metadata read_json meta_file meta_dir find lookup img_file
delete_volume_call-attached_example =
    delete_volume_call-attached "v" "/dev/loop0" [] (child (child pool_dir "v") "disk.img")
      attached_world refl refl

abbrev made_metadata : Json
made_metadata = ("size", num 5) ∷ ("ready", bool true) ∷ []

-- A volume that has been made and is ready.
abbrev made_world : World
made_world = record empty_world {
  files =
      (child root "meta", dir)
      ∷ (child (child root "meta") "v", dir)
      ∷ (child (child (child root "meta") "v") "disk.meta", json_file made_metadata)
      ∷ (child pool_dir "v", dir)
      ∷ (
        child (child pool_dir "v") "disk.img",
        file (record { size = 5; blocks = 0; content = "" }),
      )
      ∷ [];
}

abbrev attach_first : FilePath → Exec World FilePath
attach_first p = pure (child (child root "dev") "loop0")

abbrev detach_none : FilePath → Exec World Unit
detach_none p = pure tt

stage-after_create_example :
    let r = plain_request "v" 5 "default" true none none in
    (create_volume r >> node_stage_volume attach_first detach_none "v" staging) made_world
    ≡ (err (volume_not_ready "v"), without_lock "v" (started r made_metadata made_world))
unfolding meta_dir meta_file metadata_or metadata get_volume_path lookup read_json find lock_file
stage-after_create_example =
    stage-after_create attach_first detach_none "v" "default" 5 true none none staging
      (child pool_dir "v") _ made_metadata made_world refl refl refl refl refl refl (omega arith)
      refl

abbrev doze : Driver → Driver
doze d = record d { node = record d.node { now = d.node.now + 500000 } }

abbrev dozes : ℕ → List (Driver → Driver)
dozes zero = []
dozes (suc n) = doze ∷ dozes n

dozes-AllSleep : (n : ℕ) → AllSleep (dozes n)
dozes-AllSleep zero = tt
dozes-AllSleep (suc n) = ((λ d. omega arith), dozes-AllSleep n)

length-dozes : (n : ℕ) → length (dozes n) ≡ n
length-dozes zero = refl
length-dozes (suc n) = omega (arith, length-dozes n)

abbrev example_driver : Driver
example_driver = record {
  node = empty_world;
  manager = record {
    tasks = [];
    shutting_down = false;
    max_retry = 3;
    store = [];
    jobs = [];
    closed = false;
    now = 0;
  };
}

abbrev example_request : CreateVolumeRequest
example_request = record {
  capabilities = record { is_single_node_writer = true; access_type = some "mount" } ∷ [];
  required_bytes = 5;
  storage_pool = some "default";
  preferred = (("node", "n") ∷ []) ∷ [];
  source_snapshot_id = "";
  source_volume_id = "";
}

abbrev example_options : CreationOptions
example_options = record {
  thin_provision = true;
  freezefs = false;
  copy_on_write = none;
  format_options = "";
}

abbrev any_hash : TaskName → List Value → Json → String
any_hash task args kwargs = "id"

create-end_example :
    Post
      (λ a. has_ended a ≡ true)
      (create_volume_call any_hash "node" "v" example_request example_options
        (dozes 60)
        example_driver)
    × Post
        (λ a. has_ended a ≡ true)
        (create_snapshot_call any_hash "v" "s" (dozes 60) example_driver)
create-end_example =
    create-end any_hash "node" "v" "s" example_request example_options (dozes 60) example_driver
      (dozes-AllSleep 60) (omega (arith, length-dozes 60))

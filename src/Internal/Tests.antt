-- ===== src/Internal/Tests.antt =====
-- The theorems on the calls between processes at concrete states.
use rawfile_localpv.Prelude.{
  Bool, String, Option, none, some, not, ◌&&◌, str_eq, ◌-ℤ◌, ◌-◌, ◌*◌, ◌≡◌, refl, [], ◌∷◌, merge,
  lookup, true, arith, if◌then◌else◌, ltb,
}
use rawfile_localpv.Paths.{root, child}
use rawfile_localpv.Json.{num, bool, text, Json}
use rawfile_localpv.Errors.{ok}
use rawfile_localpv.Node.Files.{File, dir, file, json_file, find}
use rawfile_localpv.Node.World.{World, read_json}
use rawfile_localpv.Node.Metadata.{meta_dir, meta_file, metadata, metadata_or, pool_of, img_file}
use rawfile_localpv.Node.Patch.{with_metadata}
use rawfile_localpv.Node.Examples.{empty_world, pool_dir}
use rawfile_localpv.Volumes.Destroy.{
  get_volume_stats, get_volumes_stats_by_pool, list_all_volumes, volumes_of,
}
use rawfile_localpv.Volumes.Capacity.{
  get_capacity, statvfs, capacity_left, reserved_capacity_handlers, plain_reserved_capacity_handler,
}
use rawfile_localpv.Internal.Remote.{Channels, prune_stale_stubs, any_eq, present}
use rawfile_localpv.Internal.Targets.{
  build_remote_hostport, extract_remote_hostport, host_of, prune_stale_stubs-build,
}
use rawfile_localpv.Internal.Expand.{done, exhausted, grow}
use rawfile_localpv.Internal.Growth.{with_image, grow-thin}
use rawfile_localpv.Prelude.{ℕ, true, false}
use rawfile_localpv.Internal.Transfer.{read_chunks, read_chunks-IsChunking, IsChunking}

abbrev old_metadata : Json
old_metadata =
    ("size", num 5) ∷ ("thin_provision", bool true) ∷ ("storage_pool", text "default") ∷ []

abbrev image : File
image = record { size = 5; blocks = 0; content = "" }

abbrev volume_world : World
volume_world = record empty_world {
  files =
      (child root "meta", dir)
      ∷ (pool_dir, dir)
      ∷ (child (child root "meta") "v", dir)
      ∷ (child (child (child root "meta") "v") "disk.meta", json_file old_metadata)
      ∷ (child (child pool_dir "v") "disk.img", file image)
      ∷ [];
}

grow-thin_example : grow "v" 5 9 (child (child pool_dir "v") "disk.img") volume_world ≡ (
    if ltb 50000 (100 * (9 - 5)) then (ok exhausted, volume_world) else (
      ok done,
      with_metadata "v"
          (merge old_metadata (("size", num 9) ∷ []))
          (with_image (child (child pool_dir "v") "disk.img") image 9 volume_world),
    ))
unfolding metadata read_json meta_file meta_dir find lookup get_capacity statvfs
    get_volumes_stats_by_pool list_all_volumes volumes_of get_volume_stats metadata_or pool_of
    img_file capacity_left ◌-ℤ◌ reserved_capacity_handlers plain_reserved_capacity_handler
grow-thin_example =
    grow-thin "v" "default" 5 9 50000 (child (child pool_dir "v") "disk.img") _ image old_metadata
      volume_world refl refl refl refl refl refl refl refl refl (omega arith)

abbrev channels : Channels
channels = record { channels = ("a", 0) ∷ []; stubs = ("a", 0) ∷ []; opened = 1; closed = [] }

read_chunks-IsChunking_example : IsChunking 0 5 (read_chunks 7 0 5)
read_chunks-IsChunking_example = read_chunks-IsChunking 7 0 5 (omega arith)

two_chunks : read_chunks 3 0 1048580 ≡ (0, 1048576) ∷ (1048576, 4) ∷ []
unfolding read_chunks
two_chunks = refl

abbrev snapshot_world : World
snapshot_world = record empty_world {
  files =
      (child (child (child root "meta") "v") "disk.meta", json_file old_metadata)
      ∷ (child (child (child pool_dir "v") "snapshots") "s.img", file image)
      ∷ [];
}

abbrev ip : String → Option Bool
ip s = if str_eq s "::1" then some true else if str_eq s "10.0.0.1" then some false else none

abbrev port_of : String → Option ℕ
port_of s = if str_eq s "8080" then some 8080 else none

abbrev two_channels : Channels
two_channels = record {
  channels = ("[::1]:8080", 0) ∷ ("10.0.0.1:8080", 1) ∷ [];
  stubs = ("[::1]:8080", 0) ∷ ("10.0.0.1:8080", 1) ∷ [];
  opened = 2;
  closed = [];
}

prune_stale_stubs-build_example :
    (target : String) × (build_remote_hostport ip port_of "8080" "::1" ≡ ok target)
    × (extract_remote_hostport ip port_of "8080" target ≡ ok ("::1", 8080))
    × (lookup target
          (prune_stale_stubs (host_of ip port_of "8080") ("10.0.0.1" ∷ []) two_channels).stubs
        ≡ (if not (any_eq "::1" ("10.0.0.1" ∷ [])) && present (lookup target two_channels.channels)
            then none
            else lookup target two_channels.stubs))
prune_stale_stubs-build_example =
    prune_stale_stubs-build ip port_of "8080" ("10.0.0.1" ∷ []) two_channels "::1" true 8080 refl
      refl refl refl

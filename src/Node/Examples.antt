-- ===== src/Node/Examples.antt =====
-- A node with one storage pool, for the tests.
use rawfile_localpv.Prelude.{[], ◌∷◌, true, false, none, some}
use rawfile_localpv.Paths.{FilePath, root, child}
use rawfile_localpv.Node.Files.{dir}
use rawfile_localpv.Node.World.{World, Config, Host, byte_size, plain}

abbrev pub pool_dir : FilePath
pool_dir = child root "pool"

abbrev pub example_config : Config
example_config = record {
  metadata_dir = child root "meta";
  storage_pools =
      (
        "default",
        record {
          path = pool_dir;
          reserved_capacity = byte_size 10;
          reserved_capacity_mode = plain;
        },
      )
      ∷ [];
  default_pool = "default";
  resize_enabled = true;
  snapshots_enabled = true;
}

-- A host with no loop device, on which a copy succeeds and gives the source.
abbrev pub example_host : Host
example_host = record {
  losetup_j = λ _. [];
  cp = λ _ source _. (true, source);
  fallocate = λ f n. some (record f { size = n; blocks = n });
  blocks_after = λ f _. f.blocks;
  statvfs = λ _. record {
    f_frsize = 1;
    f_blocks = 1000;
    f_bavail = 500;
    f_files = 100;
    f_favail = 50;
    f_fsid = 1;
  };
  findmnt_device = λ _. none;
  freezable = λ _. true;
  resolve = λ p _. p;
}

abbrev pub empty_world : World
empty_world = record {
  files = (root, dir) ∷ (child root "meta", dir) ∷ (pool_dir, dir) ∷ [];
  config = example_config;
  cow_support_map = [];
  host = example_host;
  now = 0;
  ticks = [];
  locked = λ _. false;
}

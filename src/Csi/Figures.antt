-- ===== src/Csi/Figures.antt =====
-- rawfile/rawfile_servicer.py and rawfile/bd2fs.py: GetCapacity and NodeGetVolumeStats of a file system.
use rawfile_localpv.Prelude.{ℕ, ◌-◌, ◌*◌, ◌/◌, not, Option, some, List, [], ◌∷◌, String, lookup}
use rawfile_localpv.Errors.{aborted, invalid_argument}
use rawfile_localpv.Exec.{Exec, ◌>>=◌, ◌>>◌, pure, raise_if}
use rawfile_localpv.Node.World.{World, StatVfs}
use rawfile_localpv.Volumes.Destroy.{fs_usage}
use rawfile_localpv.Volumes.Capacity.{get_capacity}
use rawfile_localpv.Csi.Provision.{pool_or_default, is_configured}

-- `GetCapacity`, in whole bytes; `storage_pool` is the parameter of the request, normalised.
unfoldable pub get_capacity_call : Option String → Exec World ℕ
get_capacity_call storage_pool = pool_or_default storage_pool >>= λ pool.
    (λ w.
      raise_if (not (is_configured (lookup pool w.config.storage_pools)))
        (aborted invalid_argument "Invalid storage pool") w)
    >> get_capacity (some pool)
    >>= λ capacity. pure (capacity / 100)

pub data UsageUnit : Type 0 where
  in_bytes in_inodes : UsageUnit

pub record VolumeUsage : Type 0 where
  pub available : ℕ
  pub total : ℕ
  pub used : ℕ
  pub unit : UsageUnit

unfoldable pub volume_usages : StatVfs → List VolumeUsage
volume_usages s =
    record {
      available = s.f_frsize * s.f_bavail;
      total = s.f_frsize * s.f_blocks;
      used = fs_usage s;
      unit = in_bytes;
    }
    ∷ record {
      available = s.f_favail;
      total = s.f_files;
      used = s.f_files - s.f_favail;
      unit = in_inodes;
    }
    ∷ []

-- ===== src/Mounts/System.antt =====
-- What the mounting of file systems works on: the node's files and the kernel's table of mounts and
-- devices. The kernel and the programs that ask and change it (findmnt, blkid, mkfs, mount, umount)
-- are parameters, over a state `K` of the kernel.
use rawfile_localpv.Prelude.{Bool, true, false, Option, none, some, List, String, if◌then◌else◌}
use rawfile_localpv.Paths.{FilePath}
use rawfile_localpv.Errors.{Exception, Result, ok, err, os_error}
use rawfile_localpv.Exec.{Exec, ◌>>◌, finally}
use rawfile_localpv.Node.Files.{Node, file, json_file}
use rawfile_localpv.Node.World.{World, node_at, rmdir, is_some}
use rawfile_localpv.Node.Metadata.{take_lock, free_lock}

pub data FileSystemName : Type 0 where
  xfs ext4 btrfs : FileSystemName

pub record System (K : Type 0) : Type 0 where
  pub node : World
  pub kernel : K

-- What a program does to the kernel's state; it may fail after it has changed it.
abbrev pub Program : Type 0 → Type 0
Program K = K → Result Unit × K

pub record Programs (K : Type 0) : Type 0 where
  -- `Path(p).resolve()` and `Path(p).is_block_device()`
  pub resolve : FilePath → World → FilePath
  pub is_block_device : FilePath → World → K → Bool
  -- the source that `findmnt --mountpoint` prints, without a subpath in brackets; none when it fails
  pub findmnt : FilePath → K → Option FilePath
  -- the first target that `findmnt --first-only` gives for a device
  pub target_of : FilePath → K → Option FilePath
  -- `blkid -o value -s TYPE`; none when the tag is not found
  pub blkid : FilePath → K → Option String
  pub mkfs : FileSystemName → List String → FilePath → Program K
  -- the script that makes a btrfs with a default subvolume, with the folder that it mounts it at
  pub bootstrap : List String → FilePath → FilePath → Program K
  pub mount : FileSystemName → List String → FilePath → FilePath → Program K
  -- `mount -t none`
  pub bind : List String → FilePath → FilePath → Program K
  pub umount : FilePath → Program K
  -- resize2fs, xfs_growfs and btrfs, on the device or the mount point that they are given
  pub grow : FileSystemName → Option FilePath → Program K

module _ {K : Type 0} where
  abbrev pub put_node : {A : Type 0} → K → Result A × World → Result A × System K
  put_node k (r, w) = (r, record { node = w; kernel = k })

  -- A call that works on the node's files only.
  abbrev pub on_node : {A : Type 0} → Exec World A → Exec (System K) A
  on_node m s = put_node s.kernel (m s.node)

  abbrev put_kernel : World → Result Unit × K → Result Unit × System K
  put_kernel w (r, k) = (r, record { node = w; kernel = k })

  -- `run`, with `check=True`.
  abbrev pub run : Program K → Exec (System K) Unit
  run p s = put_kernel s.node (p s.kernel)

  abbrev replacing : {A : Type 0} → Exception → Result A × System K → Result A × System K
  replacing x (ok a, s) = (ok a, s)
  replacing x (err e, s) = (err x, s)

  -- `except Exception as e: raise x`
  abbrev pub raising : {A : Type 0} → Exception → Exec (System K) A → Exec (System K) A
  raising x m s = replacing x (m s)

  -- `with VolLock(volume_id): m`, where `m` mounts too.
  unfoldable pub with_vol_lock : {A : Type 0} → String → Exec (System K) A → Exec (System K) A
  with_vol_lock volume_id m =
      on_node (take_lock volume_id) >> finally m (on_node (free_lock volume_id))

  module _ (pr : Programs K) where
    abbrev pub resolved : World → Option FilePath → Option FilePath
    resolved w none = none
    resolved w (some d) = some (pr.resolve d w)

    -- `get_device_for_mountpoint`
    unfoldable pub get_device_for_mountpoint : FilePath → System K → Option FilePath
    get_device_for_mountpoint p s = resolved s.node (pr.findmnt p s.kernel)

    -- `path.rmdir()`; the kernel refuses it on a mount point.
    unfoldable pub rmdir_unmounted : FilePath → Exec (System K) Unit
    rmdir_unmounted p s =
        if is_some (pr.findmnt p s.kernel) then (err os_error, s) else on_node (rmdir p) s

    -- `path.exists()`, which follows links, and `path.is_file()`
    abbrev pub node_behind : FilePath → World → Option Node
    node_behind p w = node_at (pr.resolve p w) w

abbrev pub is_file : Option Node → Bool
is_file (some (file _)) = true
is_file (some (json_file _)) = true
is_file _ = false

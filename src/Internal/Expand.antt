-- ===== src/Internal/Expand.antt =====
-- rawfile/internal_svc.py: the signature of a call, and the expansion of a volume's image.
use rawfile_localpv.Prelude.{
  ℕ, ◌*◌, Bool, true, false, ◌&&◌, ◌||◌, Option, some, List, [], ◌∷◌, String, if◌then◌else◌, ltb,
  leb, str_eq, ℤ, pos, negsuc, sub_ℕ,
}
use rawfile_localpv.Paths.{FilePath}
use rawfile_localpv.Json.{bool, num, Json}
use rawfile_localpv.Errors.{Result, ok, err, file_not_found}
use rawfile_localpv.Exec.{Exec, ◌>>=◌, ◌>>◌, pure, lift}
use rawfile_localpv.Node.Files.{Node, file}
use rawfile_localpv.Node.World.{World, node_at}
use rawfile_localpv.Node.Metadata.{
  get_item, item, as_num, as_text, truthy, metadata, img_file, patch_metadata, truncate, fallocate,
  with_vol_lock,
}
use rawfile_localpv.Volumes.Destroy.{is_attached}
use rawfile_localpv.Volumes.Capacity.{get_capacity}

pub data ExpandStatus : Type 0 where
  done exhausted : ExpandStatus

pub record ExpandResponse : Type 0 where
  pub attached : Bool
  pub status : ExpandStatus

abbrev respond : String → ExpandStatus → Exec World ExpandResponse
respond v s = is_attached v >>= λ a. pure (record { attached = a; status = s })

abbrev physical_size_at : Option Node → Result ℕ
physical_size_at (some (file f)) = ok (512 * f.blocks)
physical_size_at _ = err file_not_found

-- `stat(path)["physical_size"]`, of a plain file.
abbrev physical_size : FilePath → Exec World ℕ
physical_size p w = (physical_size_at (node_at p w), w)

-- The space that the expansion takes: what a thin volume grows by, or what a thick one does not hold yet.
unfoldable pub required_space : Bool → ℕ → ℕ → FilePath → Exec World ℤ
required_space true old_size new_size p = pure (sub_ℕ new_size old_size)
required_space false old_size new_size p = physical_size p >>= λ n. pure (sub_ℕ new_size n)

abbrev pub lacks : ℕ → ℤ → Bool
lacks capacity (pos n) = ltb capacity (100 * n)
lacks capacity (negsuc n) = false

abbrev pub storage_pool_of : Json → Exec World String
storage_pool_of meta = lift (item "storage_pool" meta) >>= λ v. lift (as_text v)

-- The expansion of an image that is too small. Capacities are numbers of hundredths of a byte.
unfoldable pub grow : String → ℕ → ℕ → FilePath → Exec World ExpandStatus
grow v old_size new_size image = metadata v >>= λ meta.
    let thin_provision = truthy (get_item (bool false) "thin_provision" meta) in
    required_space thin_provision old_size new_size image >>= λ required.
    storage_pool_of meta >>= λ pool. get_capacity (some pool) >>= λ capacity.
    if lacks capacity required
    then pure exhausted
    else (if thin_provision then truncate image new_size else fallocate image new_size)
      >> patch_metadata v pool (("size", num new_size) ∷ [])
      >> pure done

unfoldable pub expand_raw_file : String → ℕ → Exec World ExpandResponse
expand_raw_file v new_size = with_vol_lock v (
    img_file v >>= λ image. metadata v >>= λ meta. lift (item "size" meta) >>= λ s.
    lift (as_num s) >>= λ old_size.
    if leb new_size old_size
    then respond v done
    else (grow v old_size new_size image >>= respond v))

abbrev holds : String → List (String × String) → Bool
holds signature [] = false
holds signature ((k, s) ∷ rest) =
    let later = holds signature rest in (str_eq k "x-signature" && str_eq s signature) || later

-- `intercept_service`: whether a call with this metadata goes on. An empty signature asks for nothing.
unfoldable pub is_let_through : String → List (String × String) → Bool
is_let_through signature invocation_metadata =
    str_eq signature "" || holds signature invocation_metadata

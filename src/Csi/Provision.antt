-- ===== src/Csi/Provision.antt =====
-- The checks of CreateVolume, of rawfile/bd2fs.py first and then of rawfile/rawfile_servicer.py, up to
-- what the volume is to be made of. `params` are the parameters of the request once they are
-- normalised, with the Boolean ones read.
use rawfile_localpv.Prelude.{
  ℕ, ◌+◌, ◌*◌, arith, ap, ◌∙◌, ◌≡◌, refl, Bool, true, false, ◌&&◌, not, Option, none, some, List,
  [], ◌∷◌, String, Dict, lookup, max, if◌then◌else◌, ltb, str_eq, inl, inr, Bool-cases,
}
use rawfile_localpv.Errors.{
  Exception, Result, ok, err, aborted, invalid_argument, unimplemented, resource_exhausted,
  unsupported_access_type,
}
use rawfile_localpv.Exec.{Exec, ◌>>=◌, ◌>>◌, pure, raise, gets, or_raise, raise_if}
use rawfile_localpv.Node.World.{World, StoragePool}
use rawfile_localpv.Volumes.Create.{VolumeSource, from_snapshot, from_volume}
use rawfile_localpv.Volumes.Capacity.{get_capacity}

pub record Capability : Type 0 where
  pub is_single_node_writer : Bool
  pub access_type : Option String

pub record CreateVolumeRequest : Type 0 where
  pub capabilities : List Capability
  pub required_bytes : ℕ
  pub storage_pool : Option String
  pub preferred : List (Dict String)
  pub source_snapshot_id : String
  pub source_volume_id : String

-- What the volume is to be made of.
pub record Plan : Type 0 where
  pub size : ℕ
  pub storage_pool : String
  pub node_name : String
  pub source : Option (VolumeSource × String)

-- At least 16 MiB.
abbrev pub min_size : ℕ
min_size = 16 * 1024 * 1024

abbrev only_capability : List Capability → Exec World Capability
only_capability (c ∷ []) = pure c
only_capability _ = raise (aborted invalid_argument "Exactly one cap is supported")

abbrev pub is_access_type : Option String → Bool
is_access_type none = false
is_access_type (some t) = if str_eq t "mount" then true else str_eq t "block"

abbrev pub pool_or_default : Option String → Exec World String
pool_or_default none = gets (λ w. w.config.default_pool)
pool_or_default (some p) = pure p

abbrev type_name : Option String → String
type_name none = "None"
type_name (some t) = t

abbrev pub is_configured : Option StoragePool → Bool
is_configured none = false
is_configured (some _) = true

abbrev node_of : List (Dict String) → String → Exec World String
node_of [] key = raise (aborted invalid_argument "No preferred topology set.")
node_of (segments ∷ _) key =
    or_raise (lookup key segments) (aborted invalid_argument "Topology key not found")

abbrev pub source_of_request : String → String → Option (VolumeSource × String)
source_of_request snapshot_id volume_id =
    if not (str_eq snapshot_id "")
    then some (from_snapshot, snapshot_id)
    else if not (str_eq volume_id "")
    then some (from_volume, volume_id)
    else none

-- A clone takes three times its size.
abbrev pub required_space : ℕ → Option (VolumeSource × String) → ℕ
required_space size (some (from_volume, _)) = size * 3
required_space size _ = size

abbrev has_source : Option (VolumeSource × String) → Bool
has_source none = false
has_source (some _) = true

-- The last checks, of the snapshots and of the space. Capacities are hundredths of a byte.
unfoldable pub check_source_and_space :
    String → ℕ → Option (VolumeSource × String) → Exec World Unit
check_source_and_space pool size source =
    (λ w.
      raise_if (not w.config.snapshots_enabled && has_source source)
        (aborted unimplemented "Snapshotting capabilities are disabled.") w)
    >> get_capacity (some pool)
    >>= λ capacity.
        raise_if (ltb capacity (100 * required_space size source))
          (aborted resource_exhausted "Insufficient disk space")

unfoldable pub plan_volume : String → CreateVolumeRequest → Exec World Plan
plan_volume topology_key request = only_capability request.capabilities >>= λ capability.
    raise_if (not capability.is_single_node_writer)
      (aborted invalid_argument "Unsupported access mode")
    >> raise_if (not (is_access_type capability.access_type))
        (unsupported_access_type (type_name capability.access_type))
    >> pool_or_default request.storage_pool
    >>= λ pool.
        (λ w.
          raise_if (not (is_configured (lookup pool w.config.storage_pools)))
            (aborted invalid_argument "Invalid storage pool") w)
        >> node_of request.preferred topology_key
        >>= λ node_name.
            let size = max request.required_bytes min_size in
            let source = source_of_request request.source_snapshot_id request.source_volume_id in
            check_source_and_space pool size source
            >> pure (record {
              size = size;
              storage_pool = pool;
              node_name = node_name;
              source = source;
            })

raise_if-off :
    {S : Type 0} (b h : Bool) (x : Exception) (s : S)
    → b ≡ true
    → raise_if (not b && h) x s ≡ (ok tt, s)
raise_if-off b h x s e = rw e refl

check_source_and_space-eq :
    (pool : String) (size capacity : ℕ) (source : Option (VolumeSource × String)) (w : World)
    → get_capacity (some pool) w ≡ (ok capacity, w)
    → w.config.snapshots_enabled ≡ true
    → check_source_and_space pool size source w ≡ (
        raise_if
          (ltb capacity (100 * required_space size source))
          (aborted resource_exhausted "Insufficient disk space")
          w)
unfolding check_source_and_space
check_source_and_space-eq pool size capacity source w c e =
    rw
      (raise_if-off w.config.snapshots_enabled (has_source source)
        (aborted unimplemented "Snapshotting capabilities are disabled.") w e)
      (rw c refl)

-- The first that is named, of those that may be.
abbrev pub first_given {ℓ} : {A : Type ℓ} → List (String × A) → Option A
first_given [] = none
first_given ((name, a) ∷ rest) = if str_eq name "" then first_given rest else some a

-- The space for a volume of a size, given whether no snapshot and whether no volume is named.
abbrev pub space_for : Bool → Bool → ℕ → ℕ
space_for true false size = size + size + size
space_for _ _ size = size

first_given_lem :
    (s v : String)
    → source_of_request s v ≡ first_given ((s, (from_snapshot, s)) ∷ (v, (from_volume, v)) ∷ [])
first_given_lem s v =
    by_tests (str_eq s "") (str_eq v "") (some (from_snapshot, s)) (some (from_volume, v))
  where
    by_tests :
        (a b : Bool) (x y : Option (VolumeSource × String))
        → (if not a then x else if not b then y else none)
          ≡ (if a then (if b then none else y) else x)
    by_tests true true x y = refl
    by_tests true false x y = refl
    by_tests false b x y = refl

space_for_lem :
    (size : ℕ) (s v : String)
    → required_space size (source_of_request s v) ≡ space_for (str_eq s "") (str_eq v "") size
space_for_lem size s v = by_tests (str_eq s "") (str_eq v "")
  where
    by_tests :
        (a b : Bool)
        → required_space size (
            if not a
            then some (from_snapshot, s)
            else if not b
            then some (from_volume, v)
            else none)
          ≡ space_for a b size
    by_tests true true = refl
    by_tests true false = omega arith
    by_tests false true = refl
    by_tests false false = refl

module _ (pool topology_key node_name type snapshot_id volume_id : String) (bytes capacity : ℕ)
    (segments : Dict String) (others : List (Dict String)) (sp : StoragePool) (w : World)
    (t : is_access_type (some type) ≡ true) (p : lookup pool w.config.storage_pools ≡ some sp)
    (n : lookup topology_key segments ≡ some node_name) (e : w.config.snapshots_enabled ≡ true)
    (c : get_capacity (some pool) w ≡ (ok capacity, w)) where
  -- The outcome, given the space that the volume takes and its source.
  abbrev verdict : ℕ → Option (VolumeSource × String) → Result Plan × World
  verdict space source =
      if ltb capacity (100 * space)
      then (err (aborted resource_exhausted "Insufficient disk space"), w)
      else (
        ok (record {
          size = max bytes min_size;
          storage_pool = pool;
          node_name = node_name;
          source = source;
        }),
        w,
      )

  abbrev plan_request : CreateVolumeRequest
  plan_request = record {
    capabilities = record { is_single_node_writer = true; access_type = some type } ∷ [];
    required_bytes = bytes;
    storage_pool = some pool;
    preferred = segments ∷ others;
    source_snapshot_id = snapshot_id;
    source_volume_id = volume_id;
  }

  plan_volume-verdict :
      let source = source_of_request snapshot_id volume_id in
      plan_volume topology_key plan_request w
      ≡ verdict (required_space (max bytes min_size) source) source
  unfolding plan_volume
  plan_volume-verdict =
      let source = source_of_request snapshot_id volume_id in
      rw t (
        rw p (
          rw n (
            rw (check_source_and_space-eq pool (max bytes min_size) capacity source w c e)
              (elim (Bool-cases (ltb capacity (100 * required_space (max bytes min_size) source))) [
                | inl g ↦ rw g refl
                | inr g ↦ rw g refl
              ]))))

  -- A request for one volume, of an access type that is supported and for a pool and a node that are
  -- known, while snapshots are enabled, is refused exactly if the pool has less space left than the
  -- volume takes, which is its size but at least 16777216 bytes, and three times that for a clone, which
  -- names a volume and no snapshot. If it is not refused, the plan has this size, the pool, the node
  -- and the source, the snapshot if one is named, else the volume if one is. Nothing is changed in
  -- either case.
  pub plan_volume-eq :
      let size = max bytes 16777216 in
      plan_volume topology_key
        (record {
          capabilities = record { is_single_node_writer = true; access_type = some type } ∷ [];
          required_bytes = bytes;
          storage_pool = some pool;
          preferred = segments ∷ others;
          source_snapshot_id = snapshot_id;
          source_volume_id = volume_id;
        })
        w
      ≡ (if ltb capacity (100 * space_for (str_eq snapshot_id "") (str_eq volume_id "") size)
          then (err (aborted resource_exhausted "Insufficient disk space"), w)
          else (
            ok (record {
              size = size;
              storage_pool = pool;
              node_name = node_name;
              source = first_given (
                  (snapshot_id, (from_snapshot, snapshot_id))
                  ∷ (volume_id, (from_volume, volume_id))
                  ∷ []);
            }),
            w,
          ))
  plan_volume-eq =
      let source = source_of_request snapshot_id volume_id in
      plan_volume-verdict
      ∙ ap (λ space. verdict space source)
          (space_for_lem (max bytes min_size) snapshot_id volume_id)
      ∙ ap (verdict (space_for (str_eq snapshot_id "") (str_eq volume_id "") (max bytes min_size)))
          (first_given_lem snapshot_id volume_id)

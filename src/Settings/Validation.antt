-- ===== src/Settings/Validation.antt =====
-- rawfile/config/model.py: the settings of the CSI driver's command and their validation. `is_dns` is the
-- match of a name with the regular expression of DNS names.
use Prim.Native.String.{count}
use rawfile_localpv.Prelude.{
  ◌≤◌, ◌≡◌, refl, sym, ap, ◌∙◌, subst, arith, Bool, true, false, ◌||◌, not, Option, none, some,
  List, [], ◌∷◌, String, Dict, lookup, is_empty, ltb, if◌then◌else◌, Bool-cases, inl, inr,
}
use rawfile_localpv.Paths.{FilePath, path_eq, path_eq_iff}
use rawfile_localpv.Errors.{Result, ok, err, value_error}
use rawfile_localpv.Node.World.{World, StoragePool}
use rawfile_localpv.Volumes.Capacity.{configured_pool, pool_name}

pub data PluginType : Type 0 where
  controller node : PluginType

-- A missing list of pools counts as an empty one.
pub record DriverSettings : Type 0 where
  pub plugin_type : PluginType
  pub internal_ip : Option String
  pub metadata_dir : Option FilePath
  pub storage_pools : Dict StoragePool
  pub default_pool : Option String

abbrev pub any_path : FilePath → List FilePath → Bool
any_path p [] = false
any_path p (q ∷ qs) = path_eq q p || any_path p qs

-- `len(name) > 63 or len(name) < 3`
abbrev pub has_bad_length : String → Bool
has_bad_length name = ltb 63 (count name) || ltb (count name) 3

module _ (is_dns : String → Bool) where
  -- The loop over the pools, with the paths that it has seen.
  unfoldable pub validate_pools : List FilePath → Dict StoragePool → Result Unit
  validate_pools paths [] = ok tt
  validate_pools paths ((name, pool) ∷ pools) =
      let rest = validate_pools (pool.path ∷ paths) pools in
      if has_bad_length name
      then err value_error
      else if not (is_dns name)
      then err value_error
      else if any_path pool.path paths
      then err value_error
      else rest

  abbrev is_missing {ℓ} : {A : Type ℓ} → Option A → Bool
  is_missing none = true
  is_missing (some a) = false

  abbrev check_default : Option String → Dict StoragePool → Result Unit
  check_default none pools = err value_error
  check_default (some d) pools = if is_missing (lookup d pools) then err value_error else ok tt

  abbrev then_default : Result Unit → DriverSettings → Result Unit
  then_default (err e) s = err e
  then_default (ok _) s = check_default s.default_pool s.storage_pools

  abbrev validate_node : DriverSettings → Result Unit
  validate_node s =
      if is_missing s.internal_ip
      then err value_error
      else if is_missing s.metadata_dir
      then err value_error
      else if is_empty s.storage_pools
      then err value_error
      else then_default (validate_pools [] s.storage_pools) s

  abbrev validate_as : PluginType → DriverSettings → Result Unit
  validate_as controller s = ok tt
  validate_as node s = validate_node s

  -- `validate_node_plugin`
  unfoldable pub validate_node_plugin : DriverSettings → Result Unit
  validate_node_plugin s = validate_as s.plugin_type s

  -- No pool is at the path.
  abbrev pub Avoids : FilePath → Dict StoragePool → Type 0
  Avoids q [] = Unit
  Avoids q ((name, pool) ∷ pools) = (path_eq q pool.path ≡ false) × Avoids q pools

  -- Every pool has a name of 3 to 63 characters that is a DNS name, and a path of its own.
  abbrev pub AllProper : Dict StoragePool → Type 0
  AllProper [] = Unit
  AllProper ((name, pool) ∷ pools) =
      (3 ≤ count name)
      × (count name ≤ 63)
      × (is_dns name ≡ true)
      × Avoids pool.path pools
      × AllProper pools

  abbrev accepted : Result Unit → Bool
  accepted (ok _) = true
  accepted (err e) = false

  pool_cases :
      (paths : List FilePath) (name : String) (pool : StoragePool) (pools : Dict StoragePool)
      → accepted (validate_pools paths ((name, pool) ∷ pools)) ≡ true
      → (has_bad_length name ≡ false)
        × (is_dns name ≡ true)
        × (any_path pool.path paths ≡ false)
        × (accepted (validate_pools (pool.path ∷ paths) pools) ≡ true)
  unfolding validate_pools
  pool_cases paths name pool pools h =
      three (has_bad_length name) (is_dns name) (any_path pool.path paths)
        (validate_pools (pool.path ∷ paths) pools) h
    where
      three :
          (a b c : Bool) (r : Result Unit)
          → accepted (
              if a
              then err value_error
              else if not b
              then err value_error
              else if c
              then err value_error
              else r)
            ≡ true
          → (a ≡ false) × (b ≡ true) × (c ≡ false) × (accepted r ≡ true)
      three true b c r h = ground (arith, h)
      three false false c r h = ground (arith, h)
      three false true true r h = ground (arith, h)
      three false true false r h = (refl, refl, refl, h)

  seen-Avoids :
      (q : FilePath) (paths : List FilePath) (pools : Dict StoragePool)
      → accepted (validate_pools paths pools) ≡ true
      → any_path q paths ≡ true
      → Avoids q pools
  seen-Avoids q paths [] h k = tt
  seen-Avoids q paths ((name, pool) ∷ pools) h k =
      let c = pool_cases paths name pool pools h in
      (
        elim (Bool-cases (path_eq q pool.path)) [
          | inl e ↦
              ground
                (arith, subst (λ x. any_path x paths ≡ true) ((path_eq_iff q pool.path).0 e) k, c.2)
          | inr e ↦ e
        ],
        seen-Avoids q (pool.path ∷ paths) pools c.3 (ground (arith, k)),
      )

  validate_pools-AllProper :
      (paths : List FilePath) (pools : Dict StoragePool)
      → accepted (validate_pools paths pools) ≡ true
      → AllProper pools
  validate_pools-AllProper paths [] h = tt
  validate_pools-AllProper paths ((name, pool) ∷ pools) h =
      let c = pool_cases paths name pool pools h in
      (
        ground (arith, c.0),
        ground (arith, c.0),
        c.1,
        seen-Avoids pool.path (pool.path ∷ paths) pools c.3
            (ground (arith, path_eq_iff pool.path pool.path)),
        validate_pools-AllProper (pool.path ∷ paths) pools c.3,
      )

  node_cases :
      (s : DriverSettings)
      → accepted (validate_node s) ≡ true
      → (accepted (validate_pools [] s.storage_pools) ≡ true)
        × (accepted (check_default s.default_pool s.storage_pools) ≡ true)
  node_cases s h =
      inner (is_missing s.internal_ip) (is_missing s.metadata_dir) (is_empty s.storage_pools)
        (validate_pools [] s.storage_pools) h
    where
      inner :
          (a b c : Bool) (r : Result Unit)
          → accepted (
              if a
              then err value_error
              else if b
              then err value_error
              else if c
              then err value_error
              else then_default r s)
            ≡ true
          → (accepted r ≡ true) × (accepted (check_default s.default_pool s.storage_pools) ≡ true)
      inner true b c r h = ground (arith, h)
      inner false true c r h = ground (arith, h)
      inner false false true r h = ground (arith, h)
      inner false false false (ok u) h = (refl, h)
      inner false false false (err e) h = ground (arith, h)

  default_found :
      (d : String) (w : World) (o : Option StoragePool)
      → lookup d w.config.storage_pools ≡ o
      → accepted (if is_missing o then err value_error else ok tt) ≡ true
      → (pool : StoragePool) × (configured_pool d w ≡ (ok pool, w))
  default_found d w none e h = ground (arith, h)
  default_found d w (some pool) e h = (pool, rw e refl)

  -- A node whose settings were accepted has pools with names of 3 to 63 characters that are DNS names,
  -- each at a path of its own, and a default pool among them, so that a request that names no pool
  -- finds one.
  pub validate_node_plugin-AllProper :
      (s : DriverSettings) (w : World)
      → s.plugin_type ≡ node
      → validate_node_plugin s ≡ ok tt
      → w.config.storage_pools ≡ s.storage_pools
      → s.default_pool ≡ some w.config.default_pool
      → AllProper w.config.storage_pools
        × ((pool : StoragePool) × (configured_pool (pool_name none w) w ≡ (ok pool, w)))
  unfolding validate_node_plugin
  validate_node_plugin-AllProper s w t v e d =
      let k : accepted (validate_node s) ≡ true =
        ap accepted (sym (ap (λ p. validate_as p s) t) ∙ v) in
      let c = node_cases s k in
      (
        subst AllProper (sym e) (validate_pools-AllProper [] s.storage_pools c.0),
        default_found w.config.default_pool w (lookup w.config.default_pool w.config.storage_pools)
            refl
            (subst (λ l. accepted (check_default (some w.config.default_pool) l) ≡ true) (sym e)
              (subst (λ o. accepted (check_default o s.storage_pools) ≡ true) d c.1)),
      )

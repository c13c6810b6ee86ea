-- ===== src/Cluster/ConfigMaps.antt =====
-- rawfile/orchestrator/k8s.py: the config maps of the namespace and what the API tells of the cluster.
-- Each call of the client takes the next of `failures`, which says whether and how it fails for
-- another reason than an object that is missing or stands there already.
use rawfile_localpv.Prelude.{
  ℕ, suc, ◌≡◌, refl, Bool, false, ◌||◌, not, Option, none, some, List, [], ◌∷◌, String, Dict,
  lookup, insert, contains, ◌==◌, if◌then◌else◌,
}
use rawfile_localpv.Errors.{Exception, Result, ok, err, api_error, os_error}
use rawfile_localpv.Cluster.Affinity.{VolumeNodeAffinity, node_of}
use rawfile_localpv.Exec.{Exec, ◌>>=◌, pure, raise, gets, lift, or_raise, modify, proceed}

pub data Failure : Type 0 where
  conflict unavailable unreachable : Failure

pub record NodeInfo : Type 0 where
  pub os_image : String
  pub kernel_version : String
  pub operating_system : String
  pub architecture : String

-- `config_maps` gives the `data` of each config map, which may be missing; `git_version` is that of
-- `/version`, `namespaces` gives their identifiers,
-- `volumes` the affinity of each persistent volume, which may be missing.
pub record Api : Type 0 where
  pub config_maps : Dict (Option (Dict String))
  pub failures : List (Option Failure)
  pub git_version : String
  pub namespaces : Dict String
  pub nodes : Dict NodeInfo
  pub volumes : Dict (Option VolumeNodeAffinity)

abbrev failed : Option Failure → Exec Api Unit
failed none = pure tt
failed (some conflict) = raise (api_error 409)
failed (some unavailable) = raise (api_error 503)
failed (some unreachable) = raise os_error

-- A request to the API, before its object is looked at.
abbrev pub request_after : List (Option Failure) → Exec Api Unit
request_after [] a = (ok tt, a)
request_after (f ∷ fs) a = failed f (record a { failures = fs })

abbrev pub request : Exec Api Unit
request a = request_after a.failures a

abbrev pub get_config_map : String → Exec Api (Option (Dict String))
get_config_map name = request >>= λ _ a. or_raise (lookup name a.config_maps) (api_error 404) a

abbrev pub set_config_map : String → Dict String → Exec Api Unit
set_config_map name entries =
    modify (λ a. record a { config_maps = insert name (some entries) a.config_maps })

abbrev pub replace_config_map : String → Dict String → Exec Api Unit
replace_config_map name entries = request >>= λ _ a.
    if contains name a.config_maps then set_config_map name entries a else raise (api_error 404) a

abbrev pub create_config_map : String → Dict String → Exec Api Unit
create_config_map name entries = request >>= λ _ a.
    if contains name a.config_maps then raise (api_error 409) a else set_config_map name entries a

-- `config_map.data or {}`
abbrev pub or_empty : Option (Dict String) → Dict String
or_empty none = []
or_empty (some entries) = entries

-- `isinstance(e, ApiError) and e.status.code == 404`
abbrev pub is_not_found : Exception → Bool
is_not_found (api_error code) = code == 404
is_not_found _ = false

abbrev pub unless_missing : {A : Type 0} → Exec Api A → Result A × Api → Result A × Api
unless_missing k (ok x, a) = (ok x, a)
unless_missing k (err e, a) = if is_not_found e then k a else (err e, a)

unfoldable pub read_config_map : String → Exec Api (Dict String)
read_config_map name a =
    unless_missing (pure []) ((get_config_map name >>= λ entries. pure (or_empty entries)) a)

abbrev pub update_config_map :
    String → String → String → Bool → Option (Dict String) → Exec Api Unit
update_config_map name key value overwrite entries =
    if not (contains key (or_empty entries)) || overwrite
    then replace_config_map name (insert key value (or_empty entries))
    else pure tt

unfoldable pub write_config_map : String → String → String → Bool → Exec Api Unit
write_config_map name key value overwrite a =
    unless_missing (create_config_map name ((key, value) ∷ []))
      ((get_config_map name >>= update_config_map name key value overwrite) a)

unfoldable pub namespace_uid : String → Exec Api String
namespace_uid namespace =
    request >>= λ _ a. or_raise (lookup namespace a.namespaces) (api_error 404) a

unfoldable pub volume_to_node : String → Exec Api String
volume_to_node volume_id = request >>= λ _ a.
    (or_raise (lookup volume_id a.volumes) (api_error 404) >>= λ v. lift (node_of v)) a

unfoldable pub version_code : Exec Api String
version_code = request >>= λ _. gets (λ a. a.git_version)

unfoldable pub read_node_info : String → Exec Api NodeInfo
read_node_info nodeid = request >>= λ _ a. or_raise (lookup nodeid a.nodes) (api_error 404) a

abbrev count : Dict NodeInfo → ℕ
count [] = 0
count (n ∷ ns) = suc (count ns)

unfoldable pub node_count : Exec Api ℕ
node_count = request >>= λ _. gets (λ a. count a.nodes)

-- What the config map of a name holds; nothing when it is missing.
abbrev pub data_at : Option (Option (Dict String)) → Dict String
data_at none = []
data_at (some entries) = or_empty entries

abbrev pub data_of : String → Api → Dict String
data_of name a = data_at (lookup name a.config_maps)

module _ {B : Type 0} (P : Result B × Api → Type 0) (f : Unit → Exec Api B) where
  -- A request goes on with the same objects, or raises something else than "not found".
  request_after-elim :
      (fs : List (Option Failure)) (a : Api)
      → ((a' : Api) → a'.config_maps ≡ a.config_maps → P (f tt a'))
      → ((e : Exception) (a' : Api)
          → is_not_found e ≡ false
          → a'.config_maps ≡ a.config_maps
          → P (err e, a'))
      → P (proceed f (request_after fs a))
  request_after-elim [] a h g = h a refl
  request_after-elim (none ∷ fs) a h g = h _ refl
  request_after-elim (some conflict ∷ fs) a h g = g _ _ refl refl
  request_after-elim (some unavailable ∷ fs) a h g = g _ _ refl refl
  request_after-elim (some unreachable ∷ fs) a h g = g _ _ refl refl

  pub request-elim :
      (a : Api)
      → ((a' : Api) → a'.config_maps ≡ a.config_maps → P (f tt a'))
      → ((e : Exception) (a' : Api)
          → is_not_found e ≡ false
          → a'.config_maps ≡ a.config_maps
          → P (err e, a'))
      → P ((request >>= f) a)
  request-elim a h g = request_after-elim a.failures a h g

-- ===== src/Settings/Tests.antt =====
-- The theorems on the settings at concrete values.
use rawfile_localpv.Prelude.{◌≡◌, refl, true, Bool, none, some, String, lookup}
use rawfile_localpv.Paths.{root, child}
use rawfile_localpv.Errors.{ok}
use rawfile_localpv.Node.World.{StoragePool}
use rawfile_localpv.Node.Examples.{empty_world}
use rawfile_localpv.Volumes.Capacity.{configured_pool, pool_name}
use rawfile_localpv.Settings.Validation.{
  DriverSettings, node, validate_pools, AllProper, validate_node_plugin,
  validate_node_plugin-AllProper,
}
use rawfile_localpv.Settings.Nameservers.{spec, stripped, valid_entries, parse_nameservers}
use rawfile_localpv.Prelude.{Option, List, ℕ}
use rawfile_localpv.Settings.Addresses.{
  split_host_port, join_host_port, split_host_port-join_host_port,
}
use rawfile_localpv.Prelude.{if◌then◌else◌, str_eq, Bool-cases, inl, inr, insert, [], ◌∷◌}
use rawfile_localpv.Settings.Parameters.{normalize_parameters, normalize_into, normalize_value}

abbrev any_name : String → Bool
any_name name = true

abbrev settings : DriverSettings
settings = record {
  plugin_type = node;
  internal_ip = some "10.0.0.1";
  metadata_dir = some (child root "meta");
  storage_pools = empty_world.config.storage_pools;
  default_pool = some "default";
}

validate_node_plugin-AllProper_example :
    AllProper any_name empty_world.config.storage_pools
    × ((pool : StoragePool) × (configured_pool (pool_name none empty_world) empty_world
          ≡ (ok pool, empty_world)))
unfolding validate_node_plugin validate_pools lookup
validate_node_plugin-AllProper_example =
    validate_node_plugin-AllProper any_name settings empty_world refl refl refl refl

abbrev unstripped : String → String
unstripped s = s

split_host_port-join_host_port_example :
    split_host_port unstripped (join_host_port true "::1" "53") ≡ ("::1", "53")
split_host_port-join_host_port_example =
    split_host_port-join_host_port unstripped true "::1" "53" refl refl refl

bare : split_host_port unstripped "2001:4860:4860::8888" ≡ ("2001:4860:4860::8888", "")
unfolding split_host_port
bare = refl

abbrev lowered : String → String
lowered s = if str_eq s "ThinProvision" then "thinprovision" else s

lowered_again : (s : String) → lowered (lowered s) ≡ lowered s
lowered_again s = elim (Bool-cases (str_eq s "ThinProvision")) [
  | inl e ↦ rw e refl
  | inr e ↦ rw e (rw e refl)
]

normalized :
    normalize_parameters unstripped lowered
      (("ThinProvision", "yes") ∷ ("copyonwrite", "none") ∷ [])
    ≡ ("thinprovision", "yes") ∷ []
unfolding normalize_parameters normalize_into normalize_value insert
normalized = refl

abbrev cut_at_comma : String → List String
cut_at_comma s = "8.8.8.8:53" ∷ "" ∷ "dns" ∷ []

abbrev is_ip : String → Bool
is_ip s = str_eq s "8.8.8.8"

abbrev digits : String → Option ℕ
digits s = if str_eq s "53" then some 53 else none

one_of_three :
    parse_nameservers unstripped cut_at_comma is_ip digits (spec "8.8.8.8:53,,dns")
    ≡ "8.8.8.8:53" ∷ []
unfolding parse_nameservers valid_entries stripped split_host_port
one_of_three = refl

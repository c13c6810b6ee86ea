-- ===== src/Analytics/Builder.antt =====
-- rawfile/analytics/ga4/event.py: the parameters of an event, set one by one. `provisioner_version` is the
-- version that the environment names, `naturalsize` what humanize writes of a size.
use rawfile_localpv.Prelude.{ℕ, String, [], insert, if◌then◌else◌, str_eq}
use Prim.Native.String.{◌++◌}
use rawfile_localpv.Json.{num, text, Json}

-- `VersionSet`; `None` is not among its values once it has been refreshed.
pub record VersionSet : Type 0 where
  pub k8s_version : String
  pub uid : String
  pub installer_type : String
  pub node_os : String
  pub node_kernel_version : String
  pub platform : String
  pub node_count : ℕ

unfoldable pub project : String → Json → Json
project value = insert "project" (text value)

unfoldable pub k8s_version : String → Json → Json
k8s_version value = insert "k8s_version" (text value)

unfoldable pub engine_name : String → Json → Json
engine_name value = insert "engine_name" (text value)

unfoldable pub engine_version : String → Json → Json
engine_version value = insert "engine_version" (text value)

unfoldable pub k8s_default_ns_uid : String → Json → Json
k8s_default_ns_uid value = insert "k8s_default_ns_uid" (text value)

unfoldable pub engine_installer : String → Json → Json
engine_installer value = insert "engine_installer" (text value)

unfoldable pub node_os : String → Json → Json
node_os value = insert "node_os" (text value)

unfoldable pub node_kernel_version : String → Json → Json
node_kernel_version value = insert "node_kernel_version" (text value)

unfoldable pub node_arch : String → Json → Json
node_arch value = insert "node_arch" (text value)

unfoldable pub volume_name : String → Json → Json
volume_name value = insert "vol_name" (text value)

-- An empty name of a claim is not set.
unfoldable pub volume_claim_name : String → Json → Json
volume_claim_name value params =
    if str_eq value "" then params else insert "vol_claim_name" (text value) params

unfoldable pub category : String → Json → Json
category value = insert "event_category" (text value)

unfoldable pub count_nodes : ℕ → Json → Json
count_nodes value = insert "node_count" (num value)

unfoldable pub volume_capacity : (ℕ → String) → ℕ → Json → Json
volume_capacity naturalsize value = insert "vol_capacity" (text (naturalsize value))

unfoldable pub replica_count : ℕ → Json → Json
replica_count value = insert "vol_replica_count" (num value)

-- `OpenEBSEventBuilder()`
unfoldable pub new_builder : String → Json
new_builder provisioner_version =
    engine_version ("rawfile-v" ++ provisioner_version)
      (engine_name "rawfile-localpv" (project "OpenEBS" []))

unfoldable pub refresh_version : VersionSet → Json → Json
refresh_version v params = count_nodes v.node_count (
    node_arch v.platform (
      node_kernel_version v.node_kernel_version (
        node_os v.node_os (
          engine_installer v.installer_type
            (k8s_default_ns_uid v.uid (k8s_version v.k8s_version params))))))

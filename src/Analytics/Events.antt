-- ===== src/Analytics/Events.antt =====
-- rawfile/analytics/ga4/usage.py and version_set.py: the events of a sender. The collector of Google
-- Analytics is outside: `uploads` says of each next request to it whether it succeeds, and `sent` lists
-- the events whose request succeeded, the last one first.
use Prim.Native.Char.{code}
use Prim.Native.String.{String, [], ◌∷◌, ◌++◌}
use rawfile_localpv.Prelude.{
  ℕ, Bool, true, false, ◌&&◌, not, ◌||◌, List, contains, if◌then◌else◌, ◌==◌, lookup,
}
use rawfile_localpv.Prelude
use rawfile_localpv.Json.{Value, null, text, Json}
use rawfile_localpv.Errors.{Result, ok, err, value_error, os_error}
use rawfile_localpv.Exec.{Exec, ◌>>=◌, ◌>>◌, pure, modify}
use rawfile_localpv.Node.Metadata.{get_item}
use rawfile_localpv.Cluster.ConfigMaps.{
  Api, NodeInfo, version_code, read_node_info, namespace_uid, node_count,
}
use rawfile_localpv.Analytics.Builder.{
  VersionSet, refresh_version, category, volume_capacity, replica_count, volume_claim_name,
  volume_name,
}

pub record Event : Type 0 where
  pub name : String
  pub params : Json

-- A `Usage`, with what its calls act on.
pub record Sender : Type 0 where
  pub api : Api
  pub uploads : List Bool
  pub sent : List Event
  pub nodeid : String
  pub builder : Json

abbrev pub put_api : {A : Type 0} → Sender → Result A × Api → Result A × Sender
put_api s (r, a) = (r, record s { api = a })

abbrev pub on_api : {A : Type 0} → Exec Api A → Exec Sender A
on_api m s = put_api s (m s.api)

abbrev pub count_version : String → NodeInfo → String → Exec Api VersionSet
count_version version info uid = node_count >>= λ count. pure (record {
  k8s_version = version;
  uid = uid;
  installer_type = "rawfile-localpv-helm";
  node_os = info.os_image;
  node_kernel_version = info.kernel_version;
  platform = info.operating_system ++ "/" ++ info.architecture;
  node_count = count;
})

abbrev pub identify_version : String → NodeInfo → Exec Api VersionSet
identify_version version info = namespace_uid "default" >>= count_version version info

abbrev pub describe_version : String → String → Exec Api VersionSet
describe_version nodeid version = read_node_info nodeid >>= identify_version version

-- `VersionSet(nodeid)`
unfoldable pub new_version_set : String → Exec Api VersionSet
new_version_set nodeid = version_code >>= describe_version nodeid

abbrev pub on_builder : (Json → Json) → Exec Sender Unit
on_builder f = modify (λ s. record s { builder = f s.builder })

-- `Usage.refresh`
unfoldable pub refresh : Exec Sender Unit
refresh s = (on_api (new_version_set s.nodeid) >>= λ v. on_builder (refresh_version v)) s

-- `name.replace("-", "_")`
unfoldable pub normalize : String → String
normalize [] = []
normalize (c ∷ s) = if code c == b'-' then "_" ++ normalize s else c ∷ normalize s

-- The categories and the names of the engine are texts.
abbrev pub text_of : Value → String
text_of (text s) = s
text_of _ = ""

abbrev pub event_of : Json → Event
event_of params = record {
  name = normalize (
      text_of (get_item null "engine_name" params)
      ++ "-"
      ++ text_of (get_item null "event_category" params));
  params = params;
}

-- `self.client.send_event(name, event)`
abbrev pub upload_after : List Bool → Event → Exec Sender Unit
upload_after Prelude.[] e s = (ok tt, record s { sent = Prelude.◌∷◌ e s.sent })
upload_after (Prelude.◌∷◌ true us) e s =
    (ok tt, record s { uploads = us; sent = Prelude.◌∷◌ e s.sent })
upload_after (Prelude.◌∷◌ false us) e s = (err os_error, record s { uploads = us })

unfoldable pub send : Exec Sender Unit
send s =
    if not (contains "event_category" s.builder) || not (contains "engine_name" s.builder)
    then (err value_error, s)
    else upload_after s.uploads (event_of s.builder) s

unfoldable pub send_install : Exec Sender Unit
send_install = on_builder (category "install") >> send

unfoldable pub send_ping : Exec Sender Unit
send_ping = on_builder (category "rawfile-ping") >> send

module _ (naturalsize : ℕ → String) where
  abbrev pub provision_params : String → String → ℕ → Json → Json
  provision_params pvc_name name capacity params = volume_name name (
      volume_claim_name pvc_name (
        replica_count 1
          (volume_capacity naturalsize capacity (category "volume-provision" params))))

  unfoldable pub volume_provision : String → String → ℕ → Exec Sender Unit
  volume_provision pvc_name name capacity =
      on_builder (provision_params pvc_name name capacity) >> send

  abbrev pub deprovision_params : String → ℕ → Json → Json
  deprovision_params name capacity params = volume_name name (
      replica_count 1 (volume_capacity naturalsize capacity (category "volume-deprovision" params)))

  unfoldable pub volume_deprovision : String → ℕ → Exec Sender Unit
  volume_deprovision name capacity = on_builder (deprovision_params name capacity) >> send

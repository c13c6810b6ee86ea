-- ===== src/Analytics/Tests.antt =====
-- The theorems on the usage events and on the config maps at concrete values.
use rawfile_localpv.Prelude.{
  ℕ, zero, suc, ◌+◌, ◌≡◌, refl, arith, true, false, Option, none, some, [], ◌∷◌, String, lookup,
  if◌then◌else◌, str_eq,
}
use Prim.Native.String.{◌++◌}
use rawfile_localpv.Errors.{err, value_error}
use rawfile_localpv.Cluster.ConfigMaps.{Api, unavailable, data_of, write_config_map}
use rawfile_localpv.Cluster.Written.{IsWritten, write_config_map-IsWritten}
use rawfile_localpv.Analytics.Builder.{new_builder}
use rawfile_localpv.Analytics.Events.{Sender}
use rawfile_localpv.Analytics.Ping.{
  Ping, configmap, install_ts_key, run_round, restarted, wait_ping,
}
use rawfile_localpv.Analytics.Install.{installs, start, round, restart, Reach-IsInstalled}
use rawfile_localpv.Analytics.Waiting.{IsLater, wait_ping-IsLater}
use rawfile_localpv.Analytics.Worker.{provisioned, deprovisioned, worker_loop}
use rawfile_localpv.Analytics.Claims.{
  Adds, HasClaim, worker_loop-never_refreshes, worker_loop-carries_claim,
}

abbrev api : Api
api = record {
  config_maps = ("rawfile-config", some (("install-ts", "aaa") ∷ [])) ∷ [];
  failures = none ∷ some unavailable ∷ [];
  git_version = "v1.31.0";
  namespaces = ("default", "uid-1") ∷ [];
  volumes = [];
  nodes =
      (
        "n1",
        record {
          os_image = "Linux";
          kernel_version = "6.1";
          operating_system = "linux";
          architecture = "amd64";
        },
      )
      ∷ [];
}

abbrev sender : Sender
sender = record {
  api = api;
  uploads = [];
  sent = [];
  nodeid = "n1";
  builder = new_builder "0.15.3";
}

write_config_map-IsWritten_example :
    IsWritten "rawfile-config" "last-ping-ts" "bbb" true api
      (write_config_map "rawfile-config" "last-ping-ts" "bbb" true api)
write_config_map-IsWritten_example =
    write_config_map-IsWritten "rawfile-config" "last-ping-ts" "bbb" true api

-- A time is written as so many letters; only two of them are read.
abbrev letters : ℕ → String
letters zero = ""
letters (suc n) = "a" ++ letters n

abbrev reads : String → Option ℕ
reads s = if str_eq s "aaa" then some 3 else if str_eq s "aaaa" then some 4 else none

abbrev ping : Ping
ping = record {
  sender = sender;
  installed = false;
  install_ts = none;
  ping_ts = none;
  ping_delta = 24;
  record_ping = false;
  now = 5;
  ticks = 1 ∷ [];
}

Reach-IsInstalled_example :
    let q = restarted (run_round letters reads ping) in
    (lookup install_ts_key (data_of configmap q.sender.api) ≡ some "aaa")
    × (installs q.sender.sent ≡ 0)
unfolding lookup
Reach-IsInstalled_example =
    Reach-IsInstalled letters reads "aaa" ping (restarted (run_round letters reads ping))
      (restart (round start)) refl

wait_ping-IsLater_example :
    ((t : ℕ)
      → reads "aaa" ≡ some t
      → IsLater letters reads (t + 24) (wait_ping letters reads "aaa" 24 ping))
    × (reads "aaa" ≡ none → wait_ping letters reads "aaa" 24 ping ≡ (err value_error, ping))
wait_ping-IsLater_example = wait_ping-IsLater letters reads "aaa" 24 ping

abbrev size_text : ℕ → String
size_text n = "1 GiB"

worker_loop-never_refreshes_example :
    let t = worker_loop size_text 5 7 (some (deprovisioned "v1" 9) ∷ none ∷ []) sender in
    (t.api ≡ api) × (lookup "node_count" t.builder ≡ lookup "node_count" sender.builder)
worker_loop-never_refreshes_example =
    worker_loop-never_refreshes size_text 5 7 (some (deprovisioned "v1" 9) ∷ none ∷ []) sender
      "node_count" (omega arith) refl

worker_loop-carries_claim_example :
    Adds
      (HasClaim "db")
      sender.sent
      (worker_loop size_text 5 7
        (some (provisioned "db" "v1" 9) ∷ some (deprovisioned "v2" 4) ∷ [])
        sender).sent
worker_loop-carries_claim_example =
    worker_loop-carries_claim size_text 5 7 "db" "v1" 9 (some (deprovisioned "v2" 4) ∷ []) sender
      (omega arith) refl (refl, tt)

-- ===== src/Cluster/Tests.antt =====
-- The theorems on the watching thread at a concrete cluster: a rolling update of the pod of one node,
-- then an error and a new list.
use rawfile_localpv.Prelude.{◌≡◌, refl, true, some, List, [], ◌∷◌, String, lookup, insert}
use rawfile_localpv.Cluster.Pods.{
  added, deleted, bookmark, Pod, Pods, newest_on, lookup-publish, publish, publish_into, track,
  kept,
}
use rawfile_localpv.Cluster.Watch.{
  event, expired, failed, refused, broken, complete, Session, NodeIpMapping, watch_daemonset_pods,
  start_watching, reload_mapping, run_session, on_events, on_event, on_error, track_all,
  start_reload,
}

abbrev pod : String → String → Pod
pod name ip = record { name = name; node_name = some "node"; pod_ip = some ip; running = true }

abbrev sessions : List Session
sessions =
    record {
      listing = refused;
      occurrences = event added (pod "new" "10.0.0.2") ∷ event deleted (pod "old" "10.0.0.1") ∷ [];
      ending = failed;
    }
    ∷ record { listing = broken (pod "new" "10.0.0.2" ∷ []); occurrences = []; ending = failed }
    ∷ record {
      listing = complete (pod "new" "10.0.0.2" ∷ []) "7";
      occurrences = event bookmark (pod "new" "10.0.0.2") ∷ [];
      ending = expired;
    }
    ∷ []

abbrev no_channels_host : String → String
no_channels_host target = target

abbrev started : NodeIpMapping
started =
    start_watching (pod "old" "10.0.0.1" ∷ [], "3")
      (record { channels = []; stubs = []; opened = 0; closed = [] })

mapping_after :
    (watch_daemonset_pods no_channels_host sessions started).mapping ≡ ("node", "10.0.0.2") ∷ []
unfolding watch_daemonset_pods start_watching reload_mapping run_session on_events on_event on_error
    start_reload publish publish_into track_all track kept insert
mapping_after = refl

backoff_after : (watch_daemonset_pods no_channels_host sessions started).backoff ≡ 4
unfolding watch_daemonset_pods start_watching reload_mapping run_session on_events on_event on_error
    start_reload
backoff_after = refl

-- Two pods on a node, as in a rolling update.
abbrev updating : Pods
updating = ("old", ("node", "10.0.0.1")) ∷ ("new", ("node", "10.0.0.2")) ∷ []

lookup-publish_example : lookup "node" (publish updating) ≡ newest_on "node" updating
lookup-publish_example = lookup-publish "node" updating

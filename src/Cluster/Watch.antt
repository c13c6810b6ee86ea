-- ===== src/Cluster/Watch.antt =====
-- rawfile/orchestrator/k8s.py: the thread that watches the pods of the daemon set. A session is one
-- round of its loop: what the client lists, the events that it then yields, and how the round ends.
use rawfile_localpv.Prelude.{
  ℕ, ◌*◌, Bool, true, false, Option, none, some, List, [], ◌∷◌, map, String, Dict, min,
  if◌then◌else◌,
}
use rawfile_localpv.Internal.Remote.{Channels, prune_stale_stubs}
use rawfile_localpv.Cluster.Pods.{EventType, added, bookmark, Pod, Pods, track, publish}

-- Before each event the thread looks whether it has been stopped.
pub data Occurrence : Type 0 where
  event : EventType → Pod → Occurrence
  stopping : Occurrence

-- How a round ends: the listed version is too old, or there is another error.
pub data Ending : Type 0 where
  expired failed : Ending

-- A list call raises at once, or yields pods and raises before their end, or yields all of them and gives
-- their version.
pub data Listing : Type 0 where
  refused : Listing
  broken : List Pod → Listing
  complete : List Pod → String → Listing

pub record Session : Type 0 where
  pub listing : Listing
  pub occurrences : List Occurrence
  pub ending : Ending

pub record NodeIpMapping : Type 0 where
  pub pods : Pods
  pub mapping : Dict String
  pub channels : Channels
  pub resource_version : Option String
  pub backoff : ℕ
  pub stopped : Bool

abbrev pub values : Dict String → List String
values d = map (λ e. e.1) d

unfoldable pub track_all : List Pod → Pods → Pods
track_all [] pods = pods
track_all (p ∷ ps) pods = track_all ps (track added p pods)

-- `reload_mapping`
unfoldable pub reload_mapping : List Pod × String → NodeIpMapping → NodeIpMapping
reload_mapping (listed, version) m =
    let pods = track_all listed [] in
    record m { pods = pods; mapping = publish pods; resource_version = some version }

-- What `reload_mapping` has done when the list raises after the pods `listed`: the mapping is the old one.
unfoldable pub start_reload : List Pod → NodeIpMapping → NodeIpMapping
start_reload listed m = record m { pods = track_all listed [] }

abbrev pub is_bookmark : EventType → Bool
is_bookmark bookmark = true
is_bookmark _ = false

abbrev pub unless_stopped : Bool → NodeIpMapping → NodeIpMapping → NodeIpMapping
unless_stopped true m next = m
unless_stopped false m next = next

module _ (host_of : String → String) where
  abbrev pub on_pod : EventType → Pod → NodeIpMapping → NodeIpMapping
  on_pod op pod m =
      let pods = track op pod m.pods in
      let mapping = publish pods in
      record m {
        pods = pods;
        mapping = mapping;
        channels = prune_stale_stubs host_of (values mapping) m.channels;
        backoff = 1;
      }

  -- The body of the `for` over the events.
  unfoldable pub on_event : EventType → Pod → NodeIpMapping → NodeIpMapping
  on_event op pod m = if is_bookmark op then m else on_pod op pod m

  -- The events of a session; nothing is done from a stop on.
  unfoldable pub on_events : List Occurrence → NodeIpMapping → NodeIpMapping
  on_events [] m = m
  on_events (stopping ∷ rest) m = record m { stopped = true }
  on_events (event op pod ∷ rest) m = on_events rest (on_event op pod m)

  -- The handler of the exception that ends a session.
  unfoldable pub on_error : Ending → NodeIpMapping → NodeIpMapping
  on_error expired m = record m { resource_version = none }
  on_error failed m = record m { resource_version = none; backoff = min (m.backoff * 2) 30 }

  abbrev pub watch_from : Session → NodeIpMapping → NodeIpMapping
  watch_from s m =
      let w = on_events s.occurrences m in unless_stopped w.stopped w (on_error s.ending w)

  -- A new list is asked for where there is no version to watch from.
  abbrev pub relisted : Option String → Listing → Session → NodeIpMapping → NodeIpMapping
  relisted (some version) listing s m = watch_from s m
  relisted none refused s m = on_error s.ending m
  relisted none (broken listed) s m = on_error s.ending (start_reload listed m)
  relisted none (complete listed version) s m = watch_from s (reload_mapping (listed, version) m)

  unfoldable pub run_session : Session → NodeIpMapping → NodeIpMapping
  run_session s m = relisted m.resource_version s.listing s m

  -- `watch_daemonset_pods`, for the sessions that there are until the thread is stopped.
  unfoldable pub watch_daemonset_pods : List Session → NodeIpMapping → NodeIpMapping
  watch_daemonset_pods [] m = m
  watch_daemonset_pods (s ∷ rest) m =
      let next = watch_daemonset_pods rest (run_session s m) in unless_stopped m.stopped m next

-- `start`, from the first list on.
unfoldable pub start_watching : List Pod × String → Channels → NodeIpMapping
start_watching listed channels = reload_mapping listed (record {
  pods = [];
  mapping = [];
  channels = channels;
  resource_version = none;
  backoff = 1;
  stopped = false;
})

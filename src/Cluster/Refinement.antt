-- ===== src/Cluster/Refinement.antt =====
-- rawfile/orchestrator/k8s.py: what the watching thread promises. The specification keeps, for each name
-- of a pod, what is known of it, and does not keep the pods' order, the addresses or the channels.
use rawfile_localpv.Prelude.{
  Bool, true, false, Option, none, some, List, [], ◌∷◌, String, lookup, if◌then◌else◌, str_eq,
}
use rawfile_localpv.Cluster.Pods.{EventType, added, Pod, Pods, kept}
use rawfile_localpv.Cluster.Watch.{
  Occurrence, event, stopping, Listing, refused, broken, complete, Session, NodeIpMapping,
  is_bookmark,
}

abbrev pub View : Type 0
View = String → Option (String × String)

abbrev pub update : View → String → Option (String × String) → View
update f name o j = if str_eq name j then o else f j

-- `watching` tells whether there is a version to watch from.
pub record Spec : Type 0 where
  pub view : View
  pub watching : Bool
  pub stopped : Bool

pub spec_list : List Pod → View → View
spec_list [] f = f
spec_list (p ∷ ps) f = spec_list ps (update f p.name (kept added p))

abbrev spec_event : EventType → Pod → Spec → Spec
spec_event op pod s =
    if is_bookmark op then s else record s { view = update s.view pod.name (kept op pod) }

pub spec_events : List Occurrence → Spec → Spec
spec_events [] s = s
spec_events (stopping ∷ rest) s = record s { stopped = true }
spec_events (event op pod ∷ rest) s = spec_events rest (spec_event op pod s)

abbrev end_at : Bool → Spec → Spec
end_at true s = s
end_at false s = record s { watching = false }

abbrev spec_end : Spec → Spec
spec_end s = end_at s.stopped s

abbrev spec_relisted : Bool → Listing → Session → Spec → Spec
spec_relisted true listing e s = spec_end (spec_events e.occurrences s)
spec_relisted false refused e s = record s { watching = false }
spec_relisted false (broken listed) e s = record s {
  view = spec_list listed (λ _. none);
  watching = false;
}
spec_relisted false (complete listed version) e s =
    spec_end (
      spec_events e.occurrences (record s { view = spec_list listed (λ _. none); watching = true }))

pub spec_watch : List Session → Spec → Spec
spec_watch [] s = s
spec_watch (e ∷ rest) s =
    let next = spec_watch rest (spec_relisted s.watching e.listing e s) in
    if s.stopped then s else next

abbrev has {ℓ} : {A : Type ℓ} → Option A → Bool
has none = false
has (some _) = true

-- What the specification sees of a state.
abbrev pub seen : NodeIpMapping → Spec
seen m = record {
  view = λ j. lookup j m.pods;
  watching = has m.resource_version;
  stopped = m.stopped;
}

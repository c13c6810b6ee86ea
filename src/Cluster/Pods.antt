-- ===== src/Cluster/Pods.antt =====
-- rawfile/orchestrator/k8s.py: the pods that `NodeIPMapping` tracks and the addresses that it publishes.
use rawfile_localpv.Prelude.{
  ◌≡◌, refl, sym, ◌∙◌, ap, Bool, true, false, ◌&&◌, not, Option, none, some, [], ◌∷◌, String, Dict,
  lookup, insert, erase, if◌then◌else◌, str_eq, lookup-insert, lookup-erase, IsUnique,
  insert-IsUnique, erase-IsUnique,
}
use rawfile_localpv.Errors.{Result, ok, err, node_unavailable}

pub data EventType : Type 0 where
  added modified deleted bookmark error : EventType

-- What the client gives of a pod: `node_name` and `pod_ip` may be missing, `running` is its phase.
pub record Pod : Type 0 where
  pub name : String
  pub node_name : Option String
  pub pod_ip : Option String
  pub running : Bool

abbrev pub Pods : Type 0
Pods = Dict (String × String)

abbrev is_deleted : EventType → Bool
is_deleted deleted = true
is_deleted _ = false

-- A missing or an empty text counts as false.
abbrev pub given : Option String → Option String
given none = none
given (some s) = if str_eq s "" then none else some s

abbrev pair_up : Option String → Option String → Option (String × String)
pair_up (some node) (some ip) = some (node, ip)
pair_up _ _ = none

-- What is kept of a pod after an event.
unfoldable pub kept : EventType → Pod → Option (String × String)
kept op pod =
    if not (is_deleted op) && pod.running
    then pair_up (given pod.node_name) (given pod.pod_ip)
    else none

abbrev set_or_pop : String → Option (String × String) → Pods → Pods
set_or_pop name (some e) pods = insert name e pods
set_or_pop name none pods = erase name pods

-- `_track`
unfoldable pub track : EventType → Pod → Pods → Pods
track op pod pods = set_or_pop pod.name (kept op pod) pods

-- `{node: ip for node, ip in self._pods.values()}`, into `mapping`.
unfoldable pub publish_into : Dict String → Pods → Dict String
publish_into mapping [] = mapping
publish_into mapping ((_, (node, ip)) ∷ pods) = publish_into (insert node ip mapping) pods

-- `_publish`
unfoldable pub publish : Pods → Dict String
publish pods = publish_into [] pods

abbrev address : String → Option String → Result String
address node none = err (node_unavailable node)
address node (some ip) = if str_eq ip "" then err (node_unavailable node) else ok ip

-- `get_node_ip`
unfoldable pub get_node_ip : String → Dict String → Result String
get_node_ip node mapping = address node (lookup node mapping)

set_or_pop-lookup :
    (name j : String) (o : Option (String × String)) (pods : Pods)
    → lookup j (set_or_pop name o pods) ≡ (if str_eq name j then o else lookup j pods)
set_or_pop-lookup name j none pods = lookup-erase name j pods
set_or_pop-lookup name j (some e) pods = lookup-insert name j e pods

-- An event changes what is known of its own pod, to what is kept of it, and of no other.
pub lookup-track :
    (op : EventType) (pod : Pod) (pods : Pods) (j : String)
    → lookup j (track op pod pods) ≡ (if str_eq pod.name j then kept op pod else lookup j pods)
unfolding track
lookup-track op pod pods j = set_or_pop-lookup pod.name j (kept op pod) pods

set_or_pop-IsUnique :
    (name : String) (o : Option (String × String)) (pods : Pods)
    → IsUnique pods
    → IsUnique (set_or_pop name o pods)
set_or_pop-IsUnique name none pods u = erase-IsUnique name pods u
set_or_pop-IsUnique name (some e) pods u = insert-IsUnique name e pods u

pub track-IsUnique :
    (op : EventType) (pod : Pod) (pods : Pods) → IsUnique pods → IsUnique (track op pod pods)
unfolding track
track-IsUnique op pod pods u = set_or_pop-IsUnique pod.name (kept op pod) pods u

-- The address of the newest of the tracked pods on a node: the last one of the dict.
abbrev pub or_else {ℓ} : {A : Type ℓ} → Option A → Option A → Option A
or_else none b = b
or_else (some a) b = some a

pub newest_on : String → Pods → Option String
newest_on node [] = none
newest_on node ((_, (n, ip)) ∷ pods) =
    or_else (newest_on node pods) (if str_eq n node then some ip else none)

or_else_assoc : (a b c : Option String) → or_else (or_else a b) c ≡ or_else a (or_else b c)
or_else_assoc none b c = refl
or_else_assoc (some a) b c = refl

or_else-if :
    (t : Bool) (ip : String) (o : Option String)
    → (if t then some ip else o) ≡ or_else (if t then some ip else none) o
or_else-if true ip o = refl
or_else-if false ip o = refl

lookup-publish_into :
    (node : String) (m : Dict String) (pods : Pods)
    → lookup node (publish_into m pods) ≡ or_else (newest_on node pods) (lookup node m)
unfolding publish_into newest_on
lookup-publish_into node m [] = refl
lookup-publish_into node m ((name, (n, ip)) ∷ pods) =
    lookup-publish_into node (insert n ip m) pods
    ∙ ap (or_else (newest_on node pods))
        (lookup-insert n node ip m ∙ or_else-if (str_eq n node) ip (lookup node m))
    ∙ sym (
        or_else_assoc (newest_on node pods) (if str_eq n node then some ip else none)
          (lookup node m))

or_else-none : (o : Option String) → or_else o none ≡ o
or_else-none none = refl
or_else-none (some a) = refl

-- The published mapping gives each node the address of the last of its tracked pods, in the order in which
-- the pods were first tracked, and nothing to a node without one.
pub lookup-publish :
    (node : String) (pods : Pods) → lookup node (publish pods) ≡ newest_on node pods
unfolding publish lookup
lookup-publish node pods = lookup-publish_into node [] pods ∙ or_else-none (newest_on node pods)

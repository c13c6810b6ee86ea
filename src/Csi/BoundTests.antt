-- ===== src/Csi/BoundTests.antt =====
-- The expansion of a volume at a concrete cluster: one volume is bound to a node, another to two.
use rawfile_localpv.Prelude.{◌≡◌, refl, true, none, some, [], ◌∷◌, String, Dict, ℕ, lookup}
use rawfile_localpv.Errors.{ok}
use rawfile_localpv.Exec.{Exec}
use rawfile_localpv.Cluster.Affinity.{VolumeNodeAffinity, node_affinity}
use rawfile_localpv.Cluster.ConfigMaps.{Api}
use rawfile_localpv.Cluster.Pods.{get_node_ip}
use rawfile_localpv.Mounts.Volumes.{mount}
use rawfile_localpv.Internal.Expand.{ExpandResponse, done}
use rawfile_localpv.Csi.Expansion.{ExpandVolumeRequest}
use rawfile_localpv.Csi.Bound.{
  expand_volume, answered, after, reply, is_error, expand_volume-asks_one,
}

abbrev two_nodes : VolumeNodeAffinity
two_nodes = record {
  required = some (
      record {
        match_expressions =
            some
              (record { key = "hostname"; operator = "In"; values = some ("n1" ∷ "n2" ∷ []) } ∷ []);
        match_fields = none;
      }
      ∷ []);
}

abbrev bound_api : Api
bound_api = record {
  config_maps = [];
  failures = [];
  git_version = "v1.31.0";
  namespaces = [];
  nodes = [];
  volumes = ("v", some (node_affinity "n1")) ∷ ("w", some two_nodes) ∷ ("x", none) ∷ [];
}

abbrev addresses : Dict String
addresses = ("n1", "10.0.0.1") ∷ []

-- The sizes of the volumes, on all nodes.
abbrev grow_to : String → String → ℕ → Exec (Dict ℕ) ExpandResponse
grow_to ip v size sizes = (ok (record { attached = true; status = done }), (v, size) ∷ sizes)

abbrev expansion : ExpandVolumeRequest
expansion = record { volume_id = "v"; required_bytes = 5; access_type = mount }

expand_volume-asks_one_example :
    ((node ip : String)
      → some (node_affinity "n1") ≡ some (node_affinity node)
      → get_node_ip node addresses ≡ ok ip
      → expand_volume addresses grow_to expansion (bound_api, [])
        ≡ after bound_api (answered addresses grow_to expansion (grow_to ip "v" 5 [])))
    × (((node : String) → ¬ (some (node_affinity "n1") ≡ some (node_affinity node)))
        → (is_error (expand_volume addresses grow_to expansion (bound_api, [])).0 ≡ true)
          × ((expand_volume addresses grow_to expansion (bound_api, [])).1 ≡ (bound_api, [])))
unfolding lookup
expand_volume-asks_one_example =
    expand_volume-asks_one addresses grow_to expansion (some (node_affinity "n1")) bound_api
      bound_api [] refl refl

-- The outcome for the bound volume.
expanded : expand_volume addresses grow_to expansion (bound_api, []) ≡ (
  ok (record { capacity_bytes = 5; node_expansion_required = true }),
  (bound_api, ("v", 5) ∷ []),
)
unfolding lookup get_node_ip reply
expanded =
    (expand_volume-asks_one addresses grow_to expansion (some (node_affinity "n1")) bound_api
        bound_api [] refl refl).0
      "n1" "10.0.0.1" refl refl

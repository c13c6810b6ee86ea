-- ===== src/Cluster/Mapping.antt =====
-- rawfile/orchestrator/k8s.py: what holds of the watching thread's state at all times.
use rawfile_localpv.Prelude.{◌≤◌, ◌≡◌, Option, none, some, String, Dict, IsUnique}
use rawfile_localpv.Cluster.Pods.{Pods, publish}
use rawfile_localpv.Cluster.Watch.{NodeIpMapping}

-- While there is a version to watch from, the mapping is that of the pods.
abbrev pub IsCurrent : Option String → Dict String → Pods → Type 0
IsCurrent none mapping pods = Unit
IsCurrent (some version) mapping pods = mapping ≡ publish pods

-- The mapping is that of the pods while there is a version to watch from, and at all times that of some
-- pods; no pod stands twice, and the pause after an error is between 1 and 30 seconds.
pub record IsValid (m : NodeIpMapping) : Type 0 where
  pub current : IsCurrent m.resource_version m.mapping m.pods
  pub published : (q : Pods) × (m.mapping ≡ publish q) × IsUnique q
  pub unique : IsUnique m.pods
  pub positive : 1 ≤ m.backoff
  pub bounded : m.backoff ≤ 30

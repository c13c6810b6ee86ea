-- ===== src/Cluster.antt =====
-- rawfile/orchestrator/k8s.py: the driver's view of the cluster.
pub mod Pods
pub mod Watch
pub mod Refinement
pub mod Mapping
pub mod Affinity
pub mod ConfigMaps
pub mod Written
mod Tests

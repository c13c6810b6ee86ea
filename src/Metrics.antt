-- ===== src/Metrics.antt =====
-- rawfile/metrics.py: what the node reports of its pools and volumes.
pub mod Collector
pub mod Totals
pub mod Reading
pub mod Unavailable
mod Tests

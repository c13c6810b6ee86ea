-- ===== src/Volumes.antt =====
-- rawfile/utils/volume_manager.py and rawfile/utils/snapshot_manager.py: volumes and their snapshots.
pub mod Snapshots
pub mod Paging
pub mod Tokens
pub mod Split
pub mod Create
pub mod Destroy
pub mod Capacity
pub mod Unready
mod Tests

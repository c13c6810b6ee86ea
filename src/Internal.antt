-- ===== src/Internal.antt =====
-- rawfile/internal_svc.py and rawfile/utils/remote.py: what the processes of the driver ask each other.
pub mod Expand
pub mod Growth
pub mod Remote
pub mod Targets
pub mod Transfer
pub mod Stats
pub mod InPool
mod Tests

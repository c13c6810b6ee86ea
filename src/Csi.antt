-- ===== src/Csi.antt =====
-- rawfile/rawfile_servicer.py and rawfile/bd2fs.py: the services that the container orchestrator calls.
pub mod Listing
pub mod Publish
pub mod Provision
pub mod Deletion
pub mod Figures
pub mod Stage
pub mod Waiting
pub mod Expansion
pub mod InUse
pub mod Bound
pub mod Deadline
mod PageTests
mod BoundTests
mod Tests

-- ===== src/Node.antt =====
-- The node that the driver runs on: its file system, its clock and its configuration.
pub mod Files
pub mod World
pub mod Metadata
pub mod Reading
pub mod Loops
pub mod Patch
pub mod Examples
mod Tests

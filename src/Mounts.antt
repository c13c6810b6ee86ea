-- ===== src/Mounts.antt =====
-- rawfile/filesystem, rawfile/declarative.py and the mounts of rawfile/bd2fs.py.
pub mod System
pub mod FileSystems
pub mod Declarative
pub mod Volumes
pub mod NotReady
pub mod Refusal
pub mod Lifecycle
pub mod Clearing
pub mod Freeze
pub mod Thaw
pub mod Teardown
mod Tests

-- ===== src/Startup.antt =====
-- rawfile/rawfile.py: what the driver does before it serves requests.
pub mod Preflight
pub mod Keeping
pub mod Latest
pub mod Moved
pub mod Checks
pub mod Ready
mod Tests

-- ===== src/Tasks.antt =====
pub mod Defs
pub mod Manager
mod Worker
mod Invariant
mod Retry
mod Selected
mod Frame
mod Rounds
mod Ends
mod Steps
mod Orphan
mod Recovery
mod Requests
mod Stopping
mod Tests

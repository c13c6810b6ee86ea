-- ===== src/Analytics.antt =====
-- rawfile/analytics: the usage events that the driver sends.
pub mod Builder
pub mod Events
pub mod Ping
pub mod Install
pub mod Waiting
pub mod Worker
pub mod Claims
mod Tests

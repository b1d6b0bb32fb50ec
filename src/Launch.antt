-- ===== src/Launch.antt =====
-- What the program starts, from its configuration, and how it reloads.
mod Tests
pub mod Seconds
pub mod Server
pub mod Client
pub mod Run
pub mod Ready
pub mod Reload
pub mod Orphan

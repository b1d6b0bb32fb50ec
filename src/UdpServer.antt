-- ===== src/UdpServer.antt =====
-- The UDP transport of the server: internal/server/transport/udp.go.
mod Tests
pub mod Peers
pub mod Server
pub mod Invariant
pub mod Entries
pub mod Linked
pub mod Traffic
pub mod Matching
pub mod Steps
pub mod Stale

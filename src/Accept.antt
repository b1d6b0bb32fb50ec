-- ===== src/Accept.antt =====
-- The loops that accept connections: internal/server/transport/{tcp,tcpmux}.go.
mod Tests
pub mod Tunnels
pub mod Tcp
pub mod Unserved
pub mod Expected

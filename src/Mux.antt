-- ===== src/Mux.antt =====
-- The sessions of the server's transports TCPMux and WSMux: internal/server/transport/{tcpmux,wsmux}.go.
mod Tests
pub mod Sessions
pub mod Places
pub mod Counts
pub mod Bounds
pub mod Lost

-- ===== src/Tunnel.antt =====
-- The tunnel connections of the client: internal/client/transport.
mod Tests
pub mod Dialers
pub mod Client
pub mod Streams
pub mod Udp
pub mod Address
pub mod Backoff
pub mod Balance
pub mod Delivery

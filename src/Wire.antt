-- ===== src/Wire.antt =====
-- The wire format of Backhaul (internal/utils): signals, connections, length-prefixed messages.
pub mod Signals
pub mod Conn
pub mod Binary
pub mod RoundTrip
mod Tests

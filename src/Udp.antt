-- ===== src/Udp.antt =====
-- UDP over a TCP tunnel.
mod Tests
pub mod Frames
pub mod Listener
pub mod Invariant
pub mod Sending
pub mod Table
pub mod Stored
pub mod Refused
pub mod Delivery
pub mod Stamped
pub mod Termination

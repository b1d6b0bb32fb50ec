-- ===== src/Transfer.antt =====
-- The copying loops between two connections: `transferData` of internal/utils/tcpConnHandler.go and
-- `q1transferData` of internal/utils/quicConnHandler.go.
pub mod Copy
pub mod Delivery
mod Tests

-- ===== src/Sniffer.antt =====
-- Traffic accounting: internal/web/sniffer.go.
pub mod Store
pub mod Accounting
pub mod Report
mod Tests

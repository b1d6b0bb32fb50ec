-- ===== src/Config.antt =====
-- The configuration: internal/config/config.go and the defaults of cmd/defaults.go.
pub mod Settings
pub mod Defaults
pub mod Validity
pub mod Samples
mod Tests

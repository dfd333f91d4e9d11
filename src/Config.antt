-- ===== src/Config.antt =====
-- internal/config/config.go.
pub mod Schedule
pub mod Types
pub mod Defaults
pub mod Validation

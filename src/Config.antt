-- ===== src/Config.antt =====
-- The configuration: src/prow/config.
pub mod Schema
pub mod Loader
pub mod Tests

-- ===== src/Stix.antt =====
-- STIX objects: src/prow/stix.
pub mod Objects
pub mod Helpers
pub mod Pattern
pub mod Tests
pub mod Validate

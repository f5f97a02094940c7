-- ===== src/Db.antt =====
-- The persistence of STIX objects: src/prow/db.
pub mod Stats
pub mod Handlers
pub mod State
pub mod Queries
pub mod Tests
pub mod Ingest
pub mod Repository
pub mod StixFields

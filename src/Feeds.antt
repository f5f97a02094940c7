-- ===== src/Feeds.antt =====
-- The feed connectors: src/prow/connectors.
pub mod Attack
pub mod Http
pub mod Tests
pub mod Reported
pub mod MalwareBazaar
pub mod UrlHaus
pub mod AbuseCh
pub mod ThreatFox
pub mod Kev
pub mod Fetch

-- ===== src/Forward.antt =====
-- The forwarding of what connectors log: src/prow/connector/log_forwarder.py.
pub mod Secrets
pub mod Tests
pub mod Redaction

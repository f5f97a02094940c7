-- ===== src/Protocol.antt =====
-- The connector protocol: src/prow/connector/protocol/.
pub mod Tests
pub mod Negotiation
pub mod Messages
pub mod Codec
pub mod Framing

-- ===== src/Transport.antt =====
-- The two ends of the JSONL transport: src/prow/connector/runtime_transport.py in the runtime and
-- src/prow/connector/transport_stdio.py in the connector.
pub mod Request
pub mod Tests
pub mod Pending
pub mod Runtime
pub mod Stdio

-- ===== src/Lib.antt =====
-- Verification library of Prow CTI: the connector runtime and the ingestion of what connectors emit.
--
-- A supervisor runs connectors as subprocesses. Each instance (src/prow/connector/instance.py) owns a
-- process, restarts it by a policy with a circuit breaker, and is started by a scheduler. Runtime and
-- connector talk JSON lines over the pipes: framing and codec, a hello handshake, then a dispatch loop at
-- each end. Emitted STIX bundles are validated and inserted in a PostgreSQL table without duplicates.
--
-- Which file models what:
--   Json, Prelude: JSON values, and lists, dictionaries and numbers shared by all.
--   Protocol: src/prow/connector/protocol. Messages (messages.py), Codec (codec.py: encode, decode),
--     Framing (framing.py: read_one_envelope, read_messages, write_message; Roundtrip and Delivery are
--     proofs), Negotiation (negotiation.py: perform_hello_runtime is runtime_hello and runtime_finish,
--     perform_hello_connector is connector_ack and connector_finish; Handshake runs both).
--   Supervisor: State (supervisor_state.py), Policy (restart_policy.py), Process (process.py), Instance
--     (instance.py; _handle_process_exit is note_exit, record_exit and apply_decision, its inner
--     _sleep_then_restart is wake), Health (one round of the probe loop of supervisor.py), Fleet (the rest
--     of supervisor.py), Duration (duration.py), Schedule (scheduler.py), Startup
--     (src/prow/api/connector_startup.py). Instance/History runs an instance through everything that can
--     happen to it.
--   Transport: Pending (the futures of runtime_transport.py), Runtime (its dispatch loop: _dispatch_one is
--     dispatch_one, the handlers keep their names), Request (its request_health, request_cancel and
--     request_shutdown: begin_request, request_end, close_request), Stdio (transport_stdio.py).
--   Db: src/prow/db. StixFields (stix_fields.py), Repository (repositories.py: bulk_insert_dedupe and
--     _insert_batches), Queries (its reads: list_objects, get_object, searches, get_relationships), Stats
--     (get_ingest_stats, get_ingest_timeseries), State (SqlAlchemyConnectorStateRepository and
--     state_handler.py), Ingest (ingest.py), Handlers (emit_handler.py, and the handlers that instance.py
--     gives to its transport).
--   Stix: src/prow/stix. Validate (_validate.py: validate_stix_object; _validate_bundle is objects_errors),
--     Objects (types.py, the fields that are set), Helpers (helpers.py), Pattern (_stix_pattern_quote of the
--     feed connectors; Literals has the grammar of literals).
--   Feeds: src/prow/connectors. Fetch (what all fetches share: the loop over the entries, the calls of the
--     context), Http (conditional requests), Kev, Attack, AbuseCh (what ThreatFox, UrlHaus and MalwareBazaar share), and these three; a fetch plans
--     its calls and perform_fetch makes them.
--   Forward: src/prow/connector/log_forwarder.py (Redaction: _redact_at_path, forward) and
--     collect_secret_field_paths of src/prow/connector/entry_point_resolve.py (Secrets).
--   Config: src/prow/config/loader.py (Loader; Overrides is a proof) and the ids of the connectors in
--     src/prow/config/schema.py (Schema; Unique is a proof).
--   The Tests modules hold concrete runs.
--
-- How state is modelled: each object is a record and each locked section or stretch between two awaits a
-- function on it; what the code waits for is an argument, and interleavings are sequences of steps (the
-- Step and Reach types). Exceptions are values of result types. A datetime is a number of microseconds.
--
-- Bounds and fuel: read_one_envelope runs on the length of the stream plus one and read_messages on any
-- number above that length, and both are proved to end; insert_batches runs on the number of rows, which
-- suffices for batches of at least one, and so does batches_of; collect runs on the depth of the schema,
-- which is proved to reach every secret. Sizes are unbounded numbers, as in Python.
--
-- Parameters: pydantic, json, UTF-8, Unicode tables, datetime.fromisoformat, PostgreSQL's insertion with
-- ON CONFLICT DO NOTHING, its SELECT, GROUP BY, ILIKE and upsert, jsonschema's validators, YAML, the
-- environment and the file system, which entry points can be loaded, httpx, uuid, canonical JSON, and the
-- handlers that the transport calls. A hypothesis on the database (IsPostgres, IsSelect and the like) is
-- documented behaviour of SQL, and the Tests modules show a database of lists that fulfils it.
--
-- Not modelled: processes, pipes and signals themselves; asyncio's tasks beyond their effects; STIX types and
-- schemas beyond the objects of the feeds; what pydantic checks of the configuration; the
-- command line, the HTTP API and the developer tooling.
pub mod Feeds
pub mod Config
pub mod Stix
pub mod Forward
pub mod Db
pub mod Transport
mod Prelude
pub mod Json
pub mod Protocol
pub mod Supervisor

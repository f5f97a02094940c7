-- ===== src/Transport/Stdio.antt =====
-- The connector's end of the transport (src/prow/connector/transport_stdio.py). Its pending
-- requests are handled by the same code as the runtime's (`_register_pending`, `_pop_pending`,
-- `_resolve_envelope_async` and the part of `_fail_all_pending` that rejects the futures), so
-- Transport.Pending models both.
pub mod Stranded
use prow_cti.Json.{Fields}
use prow_cti.Prelude.{
  Bool, List, Option, String, [], false, if◌then◌else◌, none, some, suc, true, zero, ℕ, ◌&&◌, ◌++◌,
  ◌==◌, ◌∷◌,
}
use prow_cti.Prelude.Int.{leb_ℤ, negsuc, pos, ℤ}
use prow_cti.Protocol.Codec.{ProtocolFailure, protocol_error}
use prow_cti.Protocol.Messages.{Envelope, ErrorCode, error, malformed_message}
use prow_cti.Transport.Pending.{
  Failure, Pending, fail_pending, no_requests, pop, protocol_failure, register, resolve,
}
use prow_cti.Transport.Runtime.{Raised, failed}
pub mod InFlight

-- `MAX_ACKNOWLEDGED_IN_FLIGHT`
abbrev pub max_in_flight : ℕ
max_in_flight = 64

-- `StdioTransport`: `running` says that the dispatch task has been created and has not ended.
pub record Stdio : Type 0 where
  pub requests : Pending
  pub in_flight : ℤ
  pub dispatch_started : Bool
  pub running : Bool
  pub cancelled : Bool
  pub written : List Envelope

-- `__init__`
abbrev pub new_stdio : Stdio
new_stdio = record {
  requests = no_requests;
  in_flight = pos 0;
  dispatch_started = false;
  running = false;
  cancelled = false;
  written = [];
}

abbrev pub increment : ℤ → ℤ
increment (pos n) = pos (suc n)
increment (negsuc zero) = pos 0
increment (negsuc (suc n)) = negsuc n

abbrev pub decrement : ℤ → ℤ
decrement (pos zero) = negsuc 0
decrement (pos (suc n)) = pos n
decrement (negsuc n) = negsuc (suc n)

-- `_ensure_dispatch`
unfoldable pub ensure_dispatch : Stdio → Stdio
ensure_dispatch s =
    if s.dispatch_started then s else record s { dispatch_started = true; running = true }

-- `_acquire_in_flight_slot`: none where it raises `TooManyInFlightError`.
unfoldable pub acquire_slot : Stdio → Option Stdio
acquire_slot s =
    if leb_ℤ (pos max_in_flight) s.in_flight
    then none
    else some (record s { in_flight = increment s.in_flight })

-- `_release_in_flight_slot`
unfoldable pub release_slot : Stdio → Stdio
release_slot s = record s { in_flight = decrement s.in_flight }

-- How an acknowledged operation (`emit`, `set_state`, `get_state`, `cancel_operation`, `shutdown`)
-- begins, up to its `try`.
unfoldable pub begin_operation : String → Stdio → Option Stdio
begin_operation id s = elim (acquire_slot (ensure_dispatch s)) [
  | none ↦ none
  | some t ↦ some (record t { requests = register id t.requests })
]

-- The `finally` of such an operation; that of `shutdown` sets the event as well.
unfoldable pub end_operation : String → Stdio → Stdio
end_operation id s = release_slot (record s { requests = (pop id s.requests).0 })

-- What an operation makes of the envelope that its future is set to: `none` if it is accepted, else
-- the code of the `ProtocolError` that is raised.
unfoldable pub check_response : String → Envelope → Option ErrorCode
check_response kind response = elim response.error [
  | some b ↦ some b.code
  | none ↦ if response.kind == kind then none else some malformed_message
]

-- `_fail_all_pending`
unfoldable pub fail_all_pending : Failure → Stdio → Stdio
fail_all_pending e s = record s { requests = fail_pending e s.requests; in_flight = pos 0 }

-- Pydantic's dumps, the ids, the test hook of the health reply, and what `write_message` raises.
pub record Peer : Type 0 where
  pub version : ℤ
  pub new_message_id : Stdio → String
  pub health_payload : Stdio → Fields
  pub shutdown_payload : Fields
  pub write_failure : Envelope → Option Raised

pub record Incoming : Type 0 where
  pub stdio : Stdio
  pub raised : Option Raised

module _ (peer : Peer) where
  abbrev acknowledgement : Envelope → String → Fields → Stdio → Envelope
  acknowledgement env kind payload s = record {
    v = peer.version;
    id = peer.new_message_id s;
    kind = kind;
    payload = payload;
    id_ref = some env.id;
    error = none;
  }

  -- `_reply_health_probe`
  unfoldable pub reply_health_probe : Envelope → Stdio → Incoming
  reply_health_probe env s =
      let reply = acknowledgement env "health-ack" (peer.health_payload s) s in
      elim (peer.write_failure reply) [
        | none ↦ record { stdio = record s { written = s.written ++ (reply ∷ []) }; raised = none }
        | some e ↦ record { stdio = s; raised = some e }
      ]

  -- `_reply_shutdown_request`
  unfoldable pub reply_shutdown_request : Envelope → Stdio → Incoming
  reply_shutdown_request env s =
      let reply = acknowledgement env "shutdown-ack" peer.shutdown_payload s in
      elim (peer.write_failure reply) [
        | none ↦ record {
          stdio = record s { written = s.written ++ (reply ∷ []); cancelled = true };
          raised = none;
        }
        | some e ↦ record { stdio = s; raised = some e }
      ]

  abbrev no_error : Envelope → Bool
  no_error env = elim env.error [ none ↦ true | some b ↦ false ]

  -- `_handle_incoming`: a log or metric of the peer is only logged.
  unfoldable pub handle_incoming : Envelope → Stdio → Incoming
  handle_incoming env s =
      let t = record s { requests = resolve env s.requests } in
      if env.kind == "health" && no_error env
      then reply_health_probe env t
      else if env.kind == "shutdown" && no_error env
      then reply_shutdown_request env t
      else record { stdio = t; raised = none }

  -- The rounds of `_dispatch_loop`, with the ending of the stream.
  unfoldable pub handle_all : List Envelope → Option Raised → Stdio → Incoming
  handle_all [] ending s = record { stdio = s; raised = ending }
  handle_all (env ∷ envs) ending s =
      let r = handle_incoming env s in
      elim r.raised [ none ↦ handle_all envs ending r.stdio | some e ↦ r ]

-- The `except` clauses and the `finally` of `_dispatch_loop`: the failure is the protocol's own, or
-- that of the wrapped exception.
abbrev pub stream_end : ProtocolFailure
stream_end = protocol_error malformed_message "Connector protocol stream closed."

abbrev pub loop_failure : Raised → ProtocolFailure
loop_failure (failed e) = e
loop_failure _ = protocol_error malformed_message "Connector protocol dispatch loop failed."

unfoldable pub close_dispatch : Option Raised → Stdio → Stdio
unfolding fail_all_pending
close_dispatch none s =
    fail_all_pending (protocol_failure stream_end) (record s { running = false })
close_dispatch (some e) s =
    fail_all_pending (protocol_failure stream_end)
      (fail_all_pending (protocol_failure (loop_failure e)) (record s { running = false }))

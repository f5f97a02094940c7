-- ===== src/Transport/Runtime.antt =====
-- The dispatch of connector messages in the runtime (src/prow/connector/runtime_transport.py).
-- `write_failure` says what `write_message` raises for an envelope, if it raises.
pub mod Effects
use prow_cti.Json.{Fields, Json, end}
use prow_cti.Prelude.{
  Bool, List, Option, String, [], if◌then◌else◌, none, some, ◌++◌, ◌==◌, ◌||◌, ◌∷◌,
}
use prow_cti.Prelude.Int.{ℤ}
use prow_cti.Protocol.Codec.{ProtocolFailure, protocol_error}
use prow_cti.Protocol.Messages.{EmitAckPayload, Envelope, error, malformed_message, unknown_kind}
use prow_cti.Transport.Pending.{
  Failure, Pending, fail_pending, process_exited, protocol_failure, resolve,
}
pub mod Closing
pub mod Answers

-- What ends the loop: a `ProtocolError`, a `BrokenPipeError` or `ConnectionResetError`, or any other
-- exception.
pub data Raised : Type 0 where
  failed : ProtocolFailure → Raised
  hangup crashed : Raised

-- The handlers that the runtime is given, over a state of theirs, and pydantic's validators and
-- serializers of the payloads; `none` is an exception.
pub record Services (S : Type 0) : Type 0 where
  pub emit_payload : Fields → Option Fields
  pub set_state_payload : Fields → Option (String × Json)
  pub get_state_payload : Fields → Option String
  pub log_payload : Fields → Option Fields
  pub metric_payload : Fields → Option Fields
  pub dump_emit_ack : EmitAckPayload → Fields
  pub dump_get_state_ack : Json → Fields
  pub emit_handler : Fields → S → S × Option EmitAckPayload
  pub state_set_handler : String → Json → S → S × Option (Unit {0})
  pub state_get_handler : String → S → S × Option Json
  pub log_handler : Fields → S → S
  pub metric_handler : Fields → S → S
  pub new_message_id : S → String
  pub write_failure : Envelope → Option Raised

-- The transport: the state of the handlers, the pending requests and what was written.
pub record Runtime (S : Type 0) : Type 0 where
  pub services : S
  pub requests : Pending
  pub written : List Envelope

pub record Dispatched (S : Type 0) : Type 0 where
  pub runtime : Runtime S
  pub raised : Option Raised

abbrev pub is_lifecycle : String → Bool
is_lifecycle kind = kind == "hello" || kind == "hello-ack"

abbrev pub is_ack : String → Bool
is_ack kind =
    kind == "emit-ack"
    || (kind == "set-state-ack"
        || (kind == "get-state-ack"
            || (kind == "health-ack" || (kind == "cancel-ack" || kind == "shutdown-ack"))))

module _ {S : Type 0} (v : ℤ) (h : Services S) where
  abbrev fine : Runtime S → Dispatched S
  fine t = record { runtime = t; raised = none }

  abbrev raise : Raised → Runtime S → Dispatched S
  raise e t = record { runtime = t; raised = some e }

  -- `write_message` of an acknowledgement to `env`.
  unfoldable pub send_ack : Envelope → String → Fields → Runtime S → Dispatched S
  send_ack env kind payload t =
      let reply : Envelope = record {
        v = v;
        id = h.new_message_id t.services;
        kind = kind;
        payload = payload;
        id_ref = some env.id;
        error = none;
      } in
      elim (h.write_failure reply) [
        | none ↦ fine (record t { written = t.written ++ (reply ∷ []) })
        | some e ↦ raise e t
      ]

  -- `_handle_emit`
  unfoldable pub handle_emit : Envelope → Runtime S → Dispatched S
  handle_emit env t = elim (h.emit_payload env.payload) [
    | none ↦ raise crashed t
    | some bundle ↦
        let (s, r) = h.emit_handler bundle t.services in
        elim r [
          | none ↦ raise crashed (record t { services = s })
          | some ack ↦ send_ack env "emit-ack" (h.dump_emit_ack ack) (record t { services = s })
        ]
  ]

  -- `_handle_set_state`
  unfoldable pub handle_set_state : Envelope → Runtime S → Dispatched S
  handle_set_state env t = elim (h.set_state_payload env.payload) [
    | none ↦ raise crashed t
    | some (key, value) ↦
        let (s, r) = h.state_set_handler key value t.services in
        elim r [
          | none ↦ raise crashed (record t { services = s })
          | some _ ↦ send_ack env "set-state-ack" end (record t { services = s })
        ]
  ]

  -- `_handle_get_state`
  unfoldable pub handle_get_state : Envelope → Runtime S → Dispatched S
  handle_get_state env t = elim (h.get_state_payload env.payload) [
    | none ↦ raise crashed t
    | some key ↦
        let (s, r) = h.state_get_handler key t.services in
        elim r [
          | none ↦ raise crashed (record t { services = s })
          | some value ↦
              send_ack env "get-state-ack" (h.dump_get_state_ack value) (record t { services = s })
        ]
  ]

  -- `_handle_log` and `_handle_metric`
  unfoldable pub handle_log : Envelope → Runtime S → Dispatched S
  handle_log env t = elim (h.log_payload env.payload) [
    | none ↦ raise crashed t
    | some payload ↦ fine (record t { services = h.log_handler payload t.services })
  ]

  unfoldable pub handle_metric : Envelope → Runtime S → Dispatched S
  handle_metric env t = elim (h.metric_payload env.payload) [
    | none ↦ raise crashed t
    | some payload ↦ fine (record t { services = h.metric_handler payload t.services })
  ]

  -- The dispatch on `kind`.
  unfoldable pub by_kind : Envelope → Runtime S → Dispatched S
  by_kind env t =
      if is_lifecycle env.kind
      then raise
          (failed
            (protocol_error malformed_message "Lifecycle message received outside negotiation."))
          t
      else if env.kind == "emit"
      then handle_emit env t
      else if env.kind == "set-state"
      then handle_set_state env t
      else if env.kind == "get-state"
      then handle_get_state env t
      else if env.kind == "log"
      then handle_log env t
      else if env.kind == "metric"
      then handle_metric env t
      else if is_ack env.kind
      then fine t
      else raise (failed (protocol_error unknown_kind "Unknown connector protocol kind.")) t

  -- `_dispatch_one`
  unfoldable pub dispatch_one : Envelope → Runtime S → Dispatched S
  unfolding by_kind
  dispatch_one env t = by_kind env (record t { requests = resolve env t.requests })

  -- The rounds of the loop: `ending` is what `read_messages` raises after the last envelope, none at
  -- a clean end of the stream.
  unfoldable pub dispatch_all : List Envelope → Option Raised → Runtime S → Dispatched S
  dispatch_all [] ending t = record { runtime = t; raised = ending }
  dispatch_all (env ∷ envs) ending t =
      let d = dispatch_one env t in
      elim d.raised [ none ↦ dispatch_all envs ending d.runtime | some e ↦ d ]

  -- `fatal_protocol_error` after the loop; a hangup leaves none.
  abbrev pub fatal : Option Raised → Option ProtocolFailure
  fatal none = none
  fatal (some hangup) = none
  fatal (some (failed e)) = some e
  fatal (some crashed) =
      some (protocol_error malformed_message "Connector protocol dispatch failed.")

  unfoldable pub fail_requests : Failure → Runtime S → Runtime S
  fail_requests e t = record t { requests = fail_pending e t.requests }

  -- The `except` clauses, then the `finally`.
  unfoldable pub closed : Option ProtocolFailure → Runtime S → Runtime S
  unfolding fail_requests
  closed none t = fail_requests process_exited t
  closed (some e) t = fail_requests process_exited (fail_requests (protocol_failure e) t)

  -- `_dispatch_loop`
  unfoldable pub dispatch_loop :
      List Envelope → Option Raised → Runtime S → Runtime S × Option ProtocolFailure
  dispatch_loop envs ending t =
      let d = dispatch_all envs ending t in (closed (fatal d.raised) d.runtime, fatal d.raised)

-- ===== src/Transport/Request.antt =====
-- The requests of the runtime: `request_health`, `request_cancel` and `request_shutdown` of
-- src/prow/connector/runtime_transport.py, which differ in their kinds, payloads and timeouts.
use prow_cti.Json.{Fields}
use prow_cti.Prelude.{
  Bool, Option, String, [], false, if◌then◌else◌, none, some, true, ◌++◌, ◌==◌, ◌∷◌,
}
use prow_cti.Prelude.Dict.{lookup}
use prow_cti.Prelude.Int.{ℤ}
use prow_cti.Protocol.Messages.{Envelope, ErrorCode, error, malformed_message}
use prow_cti.Transport.Pending.{
  Failure, Future, Pending, answered, pop, register, rejected, waiting, withdraw,
}
use prow_cti.Transport.Runtime.{Dispatched, Runtime, Services}
pub mod Completes

-- How a request ends: with its result, or with what it raises.
pub data RequestEnd {ℓ} (A : Type ℓ) : Type ℓ where
  completed : A → RequestEnd A
  request_failed : Failure → RequestEnd A
  refused_ack : ErrorCode → RequestEnd A
  invalid_payload timeout_error : RequestEnd A

-- `_validate_ack_envelope`: the code of the error that it raises, if it raises.
unfoldable pub validate_ack_envelope : Envelope → String → Option ErrorCode
validate_ack_envelope env expected_kind = elim env.error [
  | some b ↦ some b.code
  | none ↦ if env.kind == expected_kind then none else some malformed_message
]

-- The kinds of a request and of its acknowledgement.
pub data RequestKind : Type 0 where
  health_request cancel_request shutdown_request : RequestKind

abbrev pub kind_of : RequestKind → String
kind_of health_request = "health"
kind_of cancel_request = "cancel"
kind_of shutdown_request = "shutdown"

abbrev pub ack_kind_of : RequestKind → String
ack_kind_of health_request = "health-ack"
ack_kind_of cancel_request = "cancel-ack"
ack_kind_of shutdown_request = "shutdown-ack"

module _ {S : Type 0} (v : ℤ) (h : Services S) where
  -- Up to the wait: the id is registered and the message written; where the write raises, the
  -- `finally` takes the id out.
  unfoldable pub begin_request : RequestKind → String → Fields → Runtime S → Dispatched S
  begin_request k id payload t =
      let message : Envelope = record {
        v = v;
        id = id;
        kind = kind_of k;
        payload = payload;
        id_ref = none;
        error = none;
      } in
      let registered = register id t.requests in
      elim (h.write_failure message) [
        | none ↦ record {
          runtime = record t { requests = registered; written = t.written ++ (message ∷ []) };
          raised = none;
        }
        | some e ↦ record {
          runtime = record t { requests = (pop id registered).0 };
          raised = some e;
        }
      ]

-- What the wait gives: a future that is not done when the wait is over is a timeout.
unfoldable pub request_end {ℓ} :
    {A : Type ℓ} → RequestKind → (Fields → Option A) → Option Future → RequestEnd A
unfolding validate_ack_envelope
request_end k model_validate (some (answered env)) =
    elim (validate_ack_envelope env (ack_kind_of k)) [
      | some code ↦ refused_ack code
      | none ↦ elim (model_validate env.payload) [ none ↦ invalid_payload | some a ↦ completed a ]
    ]
request_end k model_validate (some (rejected e)) = request_failed e
request_end k model_validate _ = timeout_error

-- `except TimeoutError` and `finally`.
abbrev pub is_late : Option Future → Bool
is_late (some waiting) = true
is_late _ = false

unfoldable pub close_request : String → Pending → Pending
close_request id p = (pop id (if is_late (lookup id p.futures) then withdraw id p else p)).0

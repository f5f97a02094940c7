-- ===== src/Transport/Runtime/Closing.antt =====
-- What the end of the dispatch loop leaves (src/prow/connector/runtime_transport.py).
use prow_cti.Json.{Fields, end}
use prow_cti.Prelude.{
  Bool, List, Option, Option-cases, String, [], arith, false, if◌then◌else◌, inl, inr, none, refl,
  some, sym, true, ◌==◌, ◌∷◌, ◌≡◌,
}
use prow_cti.Prelude.Int.{ℤ}
use prow_cti.Protocol.Codec.{ProtocolFailure}
use prow_cti.Protocol.Messages.{Envelope}
use prow_cti.Transport.Pending.{
  Failure, Pending, fail_pending, process_exited, protocol_failure, rejected, resolve,
}
use prow_cti.Transport.Pending.Delivery.{future, is_waiting}
use prow_cti.Transport.Pending.Reachable.{Reach, Reach-fail_pending, acknowledged, ended, next}
use prow_cti.Transport.Runtime.{
  Dispatched, Raised, Runtime, Services, by_kind, closed, dispatch_all, dispatch_loop, dispatch_one,
  fail_requests, fatal, handle_emit, handle_get_state, handle_log, handle_metric, handle_set_state,
  is_ack, is_lifecycle, send_ack,
}
use prow_cti.Transport.Runtime.Answers.Loop.{continued, halted}
use mathlib.Core.Path.{subst}

record Keeps {S : Type 0} (q : Pending) (d : Dispatched S) : Type 0 where
  pub kept : d.runtime.requests ≡ q

if-Keeps :
    {S : Type 0} {q : Pending} {d e : Dispatched S} (b : Bool)
    → Keeps q d
    → Keeps q e
    → Keeps q (if b then d else e)
if-Keeps true x y = x
if-Keeps false x y = y

module _ {S : Type 0} (v : ℤ) (h : Services S) where
  send_ack-requests :
      (env : Envelope) (kind : String) (payload : Fields) (t : Runtime S)
      → (send_ack v h env kind payload t).runtime.requests ≡ t.requests
  unfolding send_ack
  send_ack-requests env kind payload t = ground arith

  handle_emit-requests :
      (env : Envelope) (t : Runtime S) → (handle_emit v h env t).runtime.requests ≡ t.requests
  unfolding handle_emit
  handle_emit-requests env t = elim (Option-cases (h.emit_payload env.payload)) [
    | inl e ↦ ground arith
    | inr (bundle, e) ↦
        let call = h.emit_handler bundle t.services in
        elim (Option-cases call.1) [
          | inl f ↦ ground arith
          | inr (ack, f) ↦ ground (
            arith,
            send_ack-requests env "emit-ack" (h.dump_emit_ack ack) (record t { services = call.0 }),
          )
        ]
  ]

  handle_set_state-requests :
      (env : Envelope) (t : Runtime S) → (handle_set_state v h env t).runtime.requests ≡ t.requests
  unfolding handle_set_state
  handle_set_state-requests env t = elim (Option-cases (h.set_state_payload env.payload)) [
    | inl e ↦ ground arith
    | inr ((key, value), e) ↦
        let call = h.state_set_handler key value t.services in
        elim (Option-cases call.1) [
          | inl f ↦ ground arith
          | inr (u, f) ↦
              ground
                (arith, send_ack-requests env "set-state-ack" end (record t { services = call.0 }))
        ]
  ]

  handle_get_state-requests :
      (env : Envelope) (t : Runtime S) → (handle_get_state v h env t).runtime.requests ≡ t.requests
  unfolding handle_get_state
  handle_get_state-requests env t = elim (Option-cases (h.get_state_payload env.payload)) [
    | inl e ↦ ground arith
    | inr (key, e) ↦
        let call = h.state_get_handler key t.services in
        elim (Option-cases call.1) [
          | inl f ↦ ground arith
          | inr (value, f) ↦ ground (
            arith,
            send_ack-requests env "get-state-ack" (h.dump_get_state_ack value)
                (record t { services = call.0 }),
          )
        ]
  ]

  handle_log-requests :
      (env : Envelope) (t : Runtime S) → (handle_log v h env t).runtime.requests ≡ t.requests
  unfolding handle_log
  handle_log-requests env t = ground arith

  handle_metric-requests :
      (env : Envelope) (t : Runtime S) → (handle_metric v h env t).runtime.requests ≡ t.requests
  unfolding handle_metric
  handle_metric-requests env t = ground arith

  by_kind-Keeps : (env : Envelope) (t : Runtime S) → Keeps t.requests (by_kind v h env t)
  unfolding by_kind
  by_kind-Keeps env t =
      if-Keeps (is_lifecycle env.kind) (record { kept = refl })
        (if-Keeps (env.kind == "emit") (record { kept = handle_emit-requests env t })
          (if-Keeps (env.kind == "set-state") (record { kept = handle_set_state-requests env t })
            (if-Keeps (env.kind == "get-state") (record { kept = handle_get_state-requests env t })
              (if-Keeps (env.kind == "log") (record { kept = handle_log-requests env t })
                (if-Keeps (env.kind == "metric") (record { kept = handle_metric-requests env t })
                  (if-Keeps (is_ack env.kind) (record { kept = refl })
                    (record { kept = refl })))))))

  dispatch_one-requests :
      (env : Envelope) (t : Runtime S)
      → (dispatch_one v h env t).runtime.requests ≡ resolve env t.requests
  unfolding dispatch_one
  dispatch_one-requests env t =
      (by_kind-Keeps env (record t { requests = resolve env t.requests })).kept

  dispatch_one-Reach :
      (env : Envelope) (t : Runtime S)
      → Reach t.requests
      → Reach (dispatch_one v h env t).runtime.requests
  dispatch_one-Reach env t r =
      subst Reach (sym (dispatch_one-requests env t)) (next r (acknowledged t.requests env))

  dispatch_cons-Reach :
      (env : Envelope) (envs : List Envelope) (ending : Option Raised) (t : Runtime S)
      → Reach (dispatch_one v h env t).runtime.requests
      → Reach (dispatch_all v h envs ending (dispatch_one v h env t).runtime).runtime.requests
      → Reach (dispatch_all v h (env ∷ envs) ending t).runtime.requests
  dispatch_cons-Reach env envs ending t one more =
      elim (Option-cases (dispatch_one v h env t).raised) [
        | inl e ↦
            subst (λ d. Reach d.runtime.requests) (sym (continued v h envs ending env t e)) more
        | inr (x, e) ↦
            subst (λ d. Reach d.runtime.requests) (sym (halted v h envs ending env t x e)) one
      ]

  dispatch_all-Reach :
      (envs : List Envelope) (ending : Option Raised) (t : Runtime S)
      → Reach t.requests
      → Reach (dispatch_all v h envs ending t).runtime.requests
  unfolding dispatch_all
  dispatch_all-Reach [] ending t r = r
  dispatch_all-Reach (env ∷ envs) ending t r =
      let one = dispatch_one-Reach env t r in
      dispatch_cons-Reach env envs ending t one
        (dispatch_all-Reach envs ending (dispatch_one v h env t).runtime one)

  -- The failure that the waiting requests meet when the loop ends.
  abbrev pub met : Option ProtocolFailure → Failure
  met none = process_exited
  met (some e) = protocol_failure e

  closed-requests :
      (o : Option ProtocolFailure) (t : Runtime S) (j : String)
      → Reach t.requests
      → (future j (closed v h o t).requests ≡ (
          if is_waiting (future j t.requests)
          then some (rejected (met o))
          else future j t.requests))
        × (is_waiting (future j (closed v h o t).requests) ≡ false)
  unfolding closed fail_requests
  closed-requests none t j r = Reach-fail_pending t.requests process_exited j r
  closed-requests (some e) t j r =
      let q = fail_pending (protocol_failure e) t.requests in
      let first = Reach-fail_pending t.requests (protocol_failure e) j r in
      let second =
        Reach-fail_pending q process_exited j (next r (ended t.requests (protocol_failure e))) in
      ground (arith, first, second)

  -- When the loop has ended, for whatever reason, no request that was sent before waits: one that was
  -- not answered is rejected with the protocol failure that ended the loop, or with
  -- `ConnectorProcessExited` where there is none, and one that was done keeps its outcome.
  pub dispatch_loop-requests :
      (envs : List Envelope) (ending : Option Raised) (t : Runtime S) (j : String)
      → Reach t.requests
      → let before = future j (dispatch_all v h envs ending t).runtime.requests in
        let after = future j (dispatch_loop v h envs ending t).0.requests in
        let e = (dispatch_loop v h envs ending t).1 in
        (after ≡ (if is_waiting before then some (rejected (met e)) else before))
        × (is_waiting after ≡ false)
  unfolding dispatch_loop
  dispatch_loop-requests envs ending t j r =
      let d = dispatch_all v h envs ending t in
      closed-requests (fatal v h d.raised) d.runtime j (dispatch_all-Reach envs ending t r)

-- ===== src/Transport/Runtime/Effects.antt =====
-- What the messages do to the state of the handlers, and how they are acknowledged
-- (src/prow/connector/runtime_transport.py).
use prow_cti.Json.{Fields}
use prow_cti.Prelude.{
  Bool, List, Option, String, [], arith, false, if◌then◌else◌, none, refl, some, true, ◌++◌, ◌==◌,
  ◌∷◌, ◌≡◌,
}
use prow_cti.Prelude.Int.{ℤ}
use prow_cti.Protocol.Messages.{Envelope}
use prow_cti.Transport.Pending.{resolve}
use prow_cti.Transport.Runtime.{
  Dispatched, Raised, Runtime, Services, dispatch_all, dispatch_one, handle_emit, handle_get_state,
  handle_log, handle_metric, handle_set_state, is_ack, is_lifecycle, send_ack,
}

-- The last that was written is an acknowledgement of the message.
abbrev pub Tells : {S : Type 0} → Envelope → String → Fields → Dispatched S → Type 0
Tells asking kind payload d =
    (earlier : List Envelope) × (reply : Envelope) × (d.runtime.written ≡ earlier ++ reply ∷ [])
    × (reply.kind ≡ kind)
    × (reply.id_ref ≡ some asking.id)
    × (reply.payload ≡ payload)

module _ {S : Type 0} (v : ℤ) (h : Services S) where
  pub send_ack-Tells :
      (env : Envelope) (kind : String) (payload : Fields) (t : Runtime S)
      → (send_ack v h env kind payload t).raised ≡ none
      → Tells env kind payload (send_ack v h env kind payload t)
  unfolding send_ack
  send_ack-Tells env kind payload t e =
      let reply : Envelope = record {
        v = v;
        id = h.new_message_id t.services;
        kind = kind;
        payload = payload;
        id_ref = some env.id;
        error = none;
      } in
      (t.written, reply, ground (arith, e), refl, refl, refl)

  pub dispatch_all-next :
      (env : Envelope) (envs : List Envelope) (ending : Option Raised) (t : Runtime S)
      → (dispatch_one v h env t).raised ≡ none
      → dispatch_all v h (env ∷ envs) ending t
        ≡ dispatch_all v h envs ending (dispatch_one v h env t).runtime
  unfolding dispatch_all
  dispatch_all-next env envs ending t e = rw (e, dispatch_all) refl

  pub dispatch_all-raised :
      (env : Envelope) (envs : List Envelope) (ending : Option Raised) (t : Runtime S) (e : Raised)
      → (dispatch_one v h env t).raised ≡ some e
      → dispatch_all v h (env ∷ envs) ending t ≡ dispatch_one v h env t
  unfolding dispatch_all
  dispatch_all-raised env envs ending t e r = ground (arith, r)

  pub get_state_message :
      (env : Envelope) (t : Runtime S)
      → env.kind ≡ "get-state"
      → dispatch_one v h env t
        ≡ handle_get_state v h env (record t { requests = resolve env t.requests })
  unfolding dispatch_one
  get_state_message env t k = rw k refl

  either :
      (b : Bool) (d e : Dispatched S) (x y : S)
      → d.runtime.services ≡ x
      → e.runtime.services ≡ y
      → (if b then d else e).runtime.services ≡ (if b then x else y)
  either true d e x y p q = p
  either false d e x y p q = q

  -- What each handler does to the state of the handlers.
  abbrev pub after_emit_message : Envelope → S → S
  after_emit_message env s = elim (h.emit_payload env.payload) [
    | none ↦ s
    | some bundle ↦ (h.emit_handler bundle s).0
  ]

  abbrev pub after_set_state : Envelope → S → S
  after_set_state env s = elim (h.set_state_payload env.payload) [
    | none ↦ s
    | some (key, value) ↦ (h.state_set_handler key value s).0
  ]

  abbrev pub after_get_state : Envelope → S → S
  after_get_state env s = elim (h.get_state_payload env.payload) [
    | none ↦ s
    | some key ↦ (h.state_get_handler key s).0
  ]

  abbrev pub after_log : Envelope → S → S
  after_log env s = elim (h.log_payload env.payload) [
    | none ↦ s
    | some payload ↦ h.log_handler payload s
  ]

  abbrev pub after_metric : Envelope → S → S
  after_metric env s = elim (h.metric_payload env.payload) [
    | none ↦ s
    | some payload ↦ h.metric_handler payload s
  ]

  abbrev pub after_message : Envelope → S → S
  after_message env s =
      if is_lifecycle env.kind
      then s
      else if env.kind == "emit"
      then after_emit_message env s
      else if env.kind == "set-state"
      then after_set_state env s
      else if env.kind == "get-state"
      then after_get_state env s
      else if env.kind == "log"
      then after_log env s
      else if env.kind == "metric"
      then after_metric env s
      else if is_ack env.kind
      then s
      else s

  handle_emit-services :
      (env : Envelope) (t : Runtime S)
      → (handle_emit v h env t).runtime.services ≡ after_emit_message env t.services
  unfolding handle_emit send_ack
  handle_emit-services env t = ground arith

  handle_set_state-services :
      (env : Envelope) (t : Runtime S)
      → (handle_set_state v h env t).runtime.services ≡ after_set_state env t.services
  unfolding handle_set_state send_ack
  handle_set_state-services env t = ground arith

  handle_get_state-services :
      (env : Envelope) (t : Runtime S)
      → (handle_get_state v h env t).runtime.services ≡ after_get_state env t.services
  unfolding handle_get_state send_ack
  handle_get_state-services env t = ground arith

  handle_log-services :
      (env : Envelope) (t : Runtime S)
      → (handle_log v h env t).runtime.services ≡ after_log env t.services
  unfolding handle_log
  handle_log-services env t = ground arith

  handle_metric-services :
      (env : Envelope) (t : Runtime S)
      → (handle_metric v h env t).runtime.services ≡ after_metric env t.services
  unfolding handle_metric
  handle_metric-services env t = ground arith

  pub dispatch_one-services :
      (env : Envelope) (t : Runtime S)
      → (dispatch_one v h env t).runtime.services ≡ after_message env t.services
  unfolding dispatch_one
  dispatch_one-services env t' =
      let t = record t' { requests = resolve env t'.requests } in
      either (is_lifecycle env.kind) _ _ _ _ refl (
        either (env.kind == "emit") _ _ _ _ (handle_emit-services env t) (
          either (env.kind == "set-state") _ _ _ _ (handle_set_state-services env t) (
            either (env.kind == "get-state") _ _ _ _ (handle_get_state-services env t) (
              either (env.kind == "log") _ _ _ _ (handle_log-services env t) (
                either (env.kind == "metric") _ _ _ _ (handle_metric-services env t)
                  (either (is_ack env.kind) _ _ _ _ refl refl))))))

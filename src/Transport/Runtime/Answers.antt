-- ===== src/Transport/Runtime/Answers.antt =====
-- How the dispatch loop answers what it reads (src/prow/connector/runtime_transport.py).
use prow_cti.Json.{Fields, end}
use prow_cti.Prelude.{
  Bool, List, Option, Option-cases, String, [], append-nil, arith, false, if◌then◌else◌, inl, inr,
  map, none, refl, some, sym, true, ◌++◌, ◌==◌, ◌∷◌, ◌≡◌,
}
use prow_cti.Prelude.Int.{ℤ}
use prow_cti.Protocol.Messages.{Envelope, error}
use prow_cti.Protocol.Negotiation.{refused}
use prow_cti.Transport.Pending.{resolve}
use prow_cti.Transport.Runtime.{
  Dispatched, Raised, Runtime, Services, by_kind, dispatch_one, fine, handle_emit, handle_get_state,
  handle_log, handle_metric, handle_set_state, is_ack, is_lifecycle, raise, send_ack,
}
pub mod Loop
use mathlib.Core.List.{map-append}

-- What a message is answered with: the kind of the acknowledgement and the id that it refers to.
abbrev pub owed : Envelope → List (String × Option String)
owed env =
    if env.kind == "emit"
    then ("emit-ack", some env.id) ∷ []
    else if env.kind == "set-state"
    then ("set-state-ack", some env.id) ∷ []
    else if env.kind == "get-state"
    then ("get-state-ack", some env.id) ∷ []
    else []

abbrev pub all_owed : List Envelope → List (String × Option String)
all_owed [] = []
all_owed (env ∷ envs) = owed env ++ all_owed envs

abbrev pub label : Envelope → String × Option String
label env = (env.kind, env.id_ref)

abbrev pub is_none : Option Raised → Bool
is_none none = true
is_none (some e) = false

-- One message: it is answered as it is due, or the loop ends with nothing written for it.
abbrev pub Answered :
    {S : Type 0} → Runtime S → List (String × Option String) → Dispatched S → Type 0
Answered t l d =
    (d.raised ≡ none → map label d.runtime.written ≡ map label t.written ++ l)
    × (is_none d.raised ≡ false → d.runtime.written ≡ t.written)

record IsAnswered {S : Type 0} (t : Runtime S) (l : List (String × Option String))
    (d : Dispatched S) : Type 0 where
  pub answer : Answered t l d

choose :
    {S : Type 0} {t : Runtime S} {l m : List (String × Option String)} {d e : Dispatched S}
    (b : Bool)
    → IsAnswered t l d
    → IsAnswered t m e
    → IsAnswered t (if b then l else m) (if b then d else e)
choose true x y = x
choose false x y = y

either_way :
    {S : Type 0} {t : Runtime S} {l : List (String × Option String)} {d e : Dispatched S} (b : Bool)
    → IsAnswered t l d
    → IsAnswered t l e
    → IsAnswered t l (if b then d else e)
either_way true x y = x
either_way false x y = y

module _ {S : Type 0} (v : ℤ) (h : Services S) where
  send_ack-Answered :
      (env : Envelope) (kind : String) (payload : Fields) (t : Runtime S)
      → Answered t ((kind, some env.id) ∷ []) (send_ack v h env kind payload t)
  unfolding send_ack
  send_ack-Answered env kind payload t =
      let reply : Envelope = record {
        v = v;
        id = h.new_message_id t.services;
        kind = kind;
        payload = payload;
        id_ref = some env.id;
        error = none;
      } in
      ground (arith, map-append label t.written (reply ∷ []))

  handle_emit-Answered :
      (env : Envelope) (t : Runtime S)
      → Answered t (("emit-ack", some env.id) ∷ []) (handle_emit v h env t)
  unfolding handle_emit
  handle_emit-Answered env t = elim (Option-cases (h.emit_payload env.payload)) [
    | inl e ↦ ground arith
    | inr (bundle, e) ↦
        let call = h.emit_handler bundle t.services in
        elim (Option-cases call.1) [
          | inl f ↦ ground arith
          | inr (ack, f) ↦ ground (
            arith,
            send_ack-Answered env "emit-ack" (h.dump_emit_ack ack) (record t { services = call.0 }),
          )
        ]
  ]

  handle_set_state-Answered :
      (env : Envelope) (t : Runtime S)
      → Answered t (("set-state-ack", some env.id) ∷ []) (handle_set_state v h env t)
  unfolding handle_set_state
  handle_set_state-Answered env t = elim (Option-cases (h.set_state_payload env.payload)) [
    | inl e ↦ ground arith
    | inr ((key, value), e) ↦
        let call = h.state_set_handler key value t.services in
        elim (Option-cases call.1) [
          | inl f ↦ ground arith
          | inr (u, f) ↦
              ground
                (arith, send_ack-Answered env "set-state-ack" end (record t { services = call.0 }))
        ]
  ]

  handle_get_state-Answered :
      (env : Envelope) (t : Runtime S)
      → Answered t (("get-state-ack", some env.id) ∷ []) (handle_get_state v h env t)
  unfolding handle_get_state
  handle_get_state-Answered env t = elim (Option-cases (h.get_state_payload env.payload)) [
    | inl e ↦ ground arith
    | inr (key, e) ↦
        let call = h.state_get_handler key t.services in
        elim (Option-cases call.1) [
          | inl f ↦ ground arith
          | inr (value, f) ↦ ground (
            arith,
            send_ack-Answered env "get-state-ack" (h.dump_get_state_ack value)
                (record t { services = call.0 }),
          )
        ]
  ]

  handle_log-Answered : (env : Envelope) (t : Runtime S) → Answered t [] (handle_log v h env t)
  unfolding handle_log
  handle_log-Answered env t = ground (arith, append-nil (map label t.written))

  handle_metric-Answered :
      (env : Envelope) (t : Runtime S) → Answered t [] (handle_metric v h env t)
  unfolding handle_metric
  handle_metric-Answered env t = ground (arith, append-nil (map label t.written))

  fine-Answered : (t : Runtime S) → Answered t [] (fine v h t)
  fine-Answered t = (λ e. sym (append-nil (map label t.written)), λ e. refl)

  raise-Answered :
      {x : Raised} (l : List (String × Option String)) (t : Runtime S)
      → Answered t l (raise v h x t)
  raise-Answered l t = (λ e. cc, λ e. refl)

  by_kind-IsAnswered :
      (env : Envelope) (t : Runtime S) → IsAnswered t (owed env) (by_kind v h env t)
  unfolding by_kind
  by_kind-IsAnswered env t =
      let refused : (l : List (String × Option String)) (x : Raised)
          → IsAnswered t l (raise v h x t) =
        λ l x. record { answer = raise-Answered l t } in
      either_way (is_lifecycle env.kind) (refused (owed env) _) (
        choose (env.kind == "emit") (record { answer = handle_emit-Answered env t })
          (choose (env.kind == "set-state") (record { answer = handle_set_state-Answered env t })
            (choose (env.kind == "get-state") (record { answer = handle_get_state-Answered env t })
              (either_way (env.kind == "log") (record { answer = handle_log-Answered env t })
                (either_way (env.kind == "metric")
                  (record { answer = handle_metric-Answered env t })
                  (either_way (is_ack env.kind) (record { answer = fine-Answered t })
                    (refused [] _)))))))

  pub dispatch_one-Answered :
      (env : Envelope) (t : Runtime S) → Answered t (owed env) (dispatch_one v h env t)
  unfolding dispatch_one
  dispatch_one-Answered env t =
      (by_kind-IsAnswered env (record t { requests = resolve env t.requests })).answer

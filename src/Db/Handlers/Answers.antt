-- ===== src/Db/Handlers/Answers.antt =====
-- What a connector that asks for its state is told (src/prow/connector/runtime_transport.py over
-- src/prow/db/state_handler.py).
use prow_cti.Db.Handlers.{Stores, after_emit, emit_handler, or_null, stored_services}
use prow_cti.Db.Ingest.{Validation}
use prow_cti.Db.Repository.{Database}
use prow_cti.Db.State.{StateTable, get_state, not_null}
use prow_cti.Db.State.LastWrite.{IsStateTable, get_state-set_state}
use prow_cti.Db.StixFields.{Outcome, Timestamp, raised_error, returned}
use prow_cti.Json.{Json}
use prow_cti.Prelude.{
  Bool, Bool-cases, List, Option, Option-cases, String, [], ap, eq_iff, eq_refl, false,
  if◌then◌else◌, inl, inr, none, refl, some, sym, true, ◌++◌, ◌==◌, ◌∙◌, ◌∷◌, ◌≡◌,
}
use prow_cti.Prelude.Dict.{Dict}
use prow_cti.Prelude.Int.{ℤ}
use prow_cti.Protocol.Messages.{EmitAckPayload, Envelope}
use prow_cti.Transport.Pending.{resolve}
use prow_cti.Transport.Runtime.{
  Runtime, Services, dispatch_all, dispatch_one, handle_get_state, is_ack, is_lifecycle, send_ack,
}
use prow_cti.Transport.Runtime.Effects.{
  Tells, after_message, after_set_state, dispatch_all-next, dispatch_all-raised,
  dispatch_one-services, get_state_message, send_ack-Tells,
}
use mathlib.Core.Path.{subst, subst₂}

module _ {T U : Type 0} (va : Validation) (db : Database T) (states : StateTable U)
    (fromisoformat : String → Option Timestamp) (allowed : Dict Bool) (instance_id : String)
    (now : Timestamp) (base : Services (Stores T U)) where
  abbrev pub services : Services (Stores T U)
  services = stored_services va db fromisoformat states allowed instance_id now base

  -- What the connector itself reads under a key.
  abbrev pub state_at : String → Stores T U → Option Json
  state_at key s = get_state states none instance_id key s.states

  -- What is under the key after a message, from what was there before.
  abbrev pub told : String → Envelope → Option Json → Option Json
  told key env old =
      if env.kind == "set-state"
      then elim (base.set_state_payload env.payload) [
        | none ↦ old
        | some (k, value) ↦ if k == key then not_null (some value) else old
      ]
      else old

  abbrev pub all_told : String → List Envelope → Option Json → Option Json
  all_told key [] old = old
  all_told key (env ∷ envs) old = all_told key envs (told key env old)

  module _ (v : ℤ) (lawful : IsStateTable states) where
    own_write :
        (key : String) (s : Stores T U) (o : Option (String × Json))
        → state_at key
            (elim o [ none ↦ s | some (k, value) ↦ (services.state_set_handler k value s).0 ])
          ≡ elim o [
            | none ↦ state_at key s
            | some (k, value) ↦ if k == key then not_null (some value) else state_at key s
          ]
    unfolding stored_services
    own_write key s none = refl
    own_write key s (some (k, value)) =
        get_state-set_state states lawful instance_id instance_id key k value now s.states
        ∙ rw (eq_refl instance_id) refl

    set_state_message :
        (env : Envelope) (s : Stores T U)
        → env.kind ≡ "set-state"
        → after_message v services env s ≡ after_set_state v services env s
    set_state_message env s h = rw h refl

    after_emit-state_at :
        (key : String) (s : Stores T U) (r : Outcome (Option (T × EmitAckPayload)))
        → state_at key (after_emit va db fromisoformat states s r).0 ≡ state_at key s
    after_emit-state_at key s (returned (some (t, ack'))) = refl
    after_emit-state_at key s (returned none) = refl
    after_emit-state_at key s (raised_error e) = refl

    split :
        (P : Stores T U → Type 0) (b : Bool) (x y : Stores T U) → P x → P y → P (if b then x else y)
    split P true x y p q = p
    split P false x y p q = q

    option_split :
        {A : Type 0} (P : Stores T U → Type 0) (o : Option A) (x : Stores T U) (f : A → Stores T U)
        → P x
        → ((a : A) → P (f a))
        → P (elim o [ none ↦ x | some a ↦ f a ])
    option_split P none x f p q = p
    option_split P (some a) x f p q = q a

    other-state_at :
        (key : String) (env : Envelope) (s : Stores T U)
        → (env.kind == "set-state") ≡ false
        → state_at key (after_message v services env s) ≡ state_at key s
    unfolding stored_services
    other-state_at key env s h =
        let P : Stores T U → Type 0 = λ s'. state_at key s' ≡ state_at key s in
        split P (is_lifecycle env.kind) _ _ refl (
          split P (env.kind == "emit") _ _
            (option_split P (base.emit_payload env.payload) _ _ refl (λ bundle.
              after_emit-state_at key s
                (emit_handler va db fromisoformat allowed instance_id bundle s.objects)))
            (rw h (
              split P (env.kind == "get-state") _ _
                (option_split P (base.get_state_payload env.payload) _ _ refl (λ k. refl))
                (split P (env.kind == "log") _ _
                  (option_split P (base.log_payload env.payload) _ _ refl (λ k. refl))
                  (split P (env.kind == "metric") _ _
                    (option_split P (base.metric_payload env.payload) _ _ refl (λ k. refl))
                    (split P (is_ack env.kind) _ _ refl refl))))))

    after_message-state_at :
        (key : String) (env : Envelope) (s : Stores T U)
        → state_at key (after_message v services env s) ≡ told key env (state_at key s)
    unfolding get_state stored_services
    after_message-state_at key env s = elim (Bool-cases (env.kind == "set-state")) [
      | inl set ↦
          let kind : env.kind ≡ "set-state" = (eq_iff env.kind "set-state").0 set in
          ap (state_at key) (set_state_message env s kind)
          ∙ own_write key s (base.set_state_payload env.payload)
          ∙ rw set refl
      | inr not_set ↦ other-state_at key env s not_set ∙ rw not_set refl
    ]

    dispatch_one-Tells :
        (asking : Envelope) (key : String) (t : Runtime (Stores T U))
        → asking.kind ≡ "get-state"
        → base.get_state_payload asking.payload ≡ some key
        → (dispatch_one v services asking t).raised ≡ none
        → Tells asking "get-state-ack"
            (base.dump_get_state_ack (or_null (state_at key t.services)))
            (dispatch_one v services asking t)
    unfolding handle_get_state stored_services
    dispatch_one-Tells asking key t k p h =
        let t' = record t { requests = resolve asking t.requests } in
        let payload = base.dump_get_state_ack (or_null (state_at key t.services)) in
        let reached : dispatch_one v services asking t
            ≡ send_ack v services asking "get-state-ack" payload t' =
          get_state_message v services asking t k ∙ rw (p, handle_get_state) refl in
        subst (Tells asking "get-state-ack" payload) (sym reached) (
          send_ack-Tells v services asking "get-state-ack" payload t'
            (ap (λ d. d.raised) (sym reached) ∙ h))

    -- Whatever the connector sent before, state of its own included, if the loop comes to its
    -- `get-state` message and goes on, that message is answered with the value that the connector's
    -- last `set-state` message for the key gave, or with what was stored before if it sent none.
    pub get_state-answered :
        (messages : List Envelope) (asking : Envelope) (key : String) (t : Runtime (Stores T U))
        → asking.kind ≡ "get-state"
        → base.get_state_payload asking.payload ≡ some key
        → (dispatch_all v services (messages ++ asking ∷ []) none t).raised ≡ none
        → Tells asking "get-state-ack"
            (base.dump_get_state_ack (or_null (all_told key messages (state_at key t.services))))
            (dispatch_all v services (messages ++ asking ∷ []) none t)
    unfolding dispatch_all
    get_state-answered [] asking key t k p h =
        elim (Option-cases (dispatch_one v services asking t).raised) [
          | inl onwards ↦
              subst (Tells asking "get-state-ack" _)
                (sym (dispatch_all-next v services asking [] none t onwards))
                (dispatch_one-Tells asking key t k p onwards)
          | inr (e, ends) ↦ cc (
              sym h
              ∙ ap (λ d. d.raised) (dispatch_all-raised v services asking [] none t e ends)
              ∙ ends)
        ]
    get_state-answered (env ∷ messages) asking key t k p h =
        let rest = messages ++ asking ∷ [] in
        let t' = (dispatch_one v services env t).runtime in
        elim (Option-cases (dispatch_one v services env t).raised) [
          | inl onwards ↦
              let onward = dispatch_all-next v services env rest none t onwards in
              let unchanged : state_at key t'.services ≡ told key env (state_at key t.services) =
                ap (state_at key) (dispatch_one-services v services env t)
                ∙ after_message-state_at key env t.services in
              subst₂
                (λ x d.
                  Tells asking "get-state-ack"
                    (base.dump_get_state_ack (or_null (all_told key messages x))) d)
                unchanged (sym onward)
                (get_state-answered messages asking key t' k p
                  (ap (λ d. d.raised) (sym onward) ∙ h))
          | inr (e, ends) ↦ cc (
              sym h
              ∙ ap (λ d. d.raised) (dispatch_all-raised v services env rest none t e ends)
              ∙ ends)
        ]

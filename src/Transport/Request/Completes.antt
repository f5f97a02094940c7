-- ===== src/Transport/Request/Completes.antt =====
-- That a request gets the answer that refers to it, and leaves nothing behind
-- (src/prow/connector/runtime_transport.py).
use prow_cti.Json.{Fields}
use prow_cti.Prelude.{
  Bool, Option, String, ap, arith, eq_iff, eq_refl, false, if◌then◌else◌, none, refl, some, true,
  ◌&&◌, ◌==◌, ◌∙◌, ◌≡◌,
}
use prow_cti.Prelude.Dict.{lookup, lookup-remove, remove}
use prow_cti.Protocol.Messages.{Envelope}
use prow_cti.Transport.Pending.{
  Future, Pending, answered, pop, rejected, resolve, waiting, withdraw, withdrawn,
}
use prow_cti.Transport.Pending.Delivery.{
  IsTracked, future, is_waiting, settle-future, settle-pending,
}
use prow_cti.Transport.Pending.Reachable.{Reach, Reach-IsTracked, Reach-resolve}
use prow_cti.Transport.Request.{
  RequestKind, ack_kind_of, close_request, completed, is_late, request_end, validate_ack_envelope,
}

answered_future :
    (p : Pending) (id : String) (env : Envelope)
    → Reach p
    → is_waiting (future id p) ≡ true
    → env.id_ref ≡ some id
    → env.error ≡ none
    → future id (resolve env p) ≡ some (answered env)
answered_future p id env r w i e = Reach-resolve p env id r ∙ ground (arith, w, i, e, eq_refl id)

request_end-answered :
    {A : Type 0} (k : RequestKind) (model_validate : Fields → Option A) (a : A) (env : Envelope)
    → env.error ≡ none
    → (env.kind == ack_kind_of k) ≡ true
    → model_validate env.payload ≡ some a
    → request_end k model_validate (some (answered env)) ≡ completed a
unfolding request_end validate_ack_envelope
request_end-answered k model_validate a env e same valid = ground (arith, e, same, valid)

-- In every reachable state, a request whose future waits completes with the payload of an
-- acknowledgement that refers to it, if that one has the expected kind, no error and a valid payload.
request_end-resolve :
    {A : Type 0} (k : RequestKind) (model_validate : Fields → Option A) (a : A) (p : Pending)
    (id : String) (env : Envelope)
    → Reach p
    → is_waiting (future id p) ≡ true
    → env.id_ref ≡ some id
    → env.error ≡ none
    → (env.kind == ack_kind_of k) ≡ true
    → model_validate env.payload ≡ some a
    → request_end k model_validate (future id (resolve env p)) ≡ completed a
request_end-resolve k model_validate a p id env r w i e same valid =
    ap (request_end k model_validate) (answered_future p id env r w i e)
    ∙ request_end-answered k model_validate a env e same valid

withdraw-pending :
    (id j : String) (p : Pending)
    → lookup j (withdraw id p).pending ≡ (if id == j then none else lookup j p.pending)
unfolding withdraw pop
withdraw-pending id j p = ground (
  arith,
  lookup-remove id j p.pending,
  settle-pending id withdrawn (record p { pending = remove id p.pending }),
)

withdraw-future :
    (id j : String) (p : Pending)
    → IsTracked p
    → future j (withdraw id p)
      ≡ (if (id == j) && is_waiting (future j p) then some withdrawn else future j p)
unfolding withdraw pop
withdraw-future id j p t = ground (
  arith,
  eq_iff id j,
  t.tracked j,
  settle-future id j withdrawn (record p { pending = remove id p.pending }),
)

late_same : (f : Option Future) → is_late f ≡ is_waiting f
late_same none = refl
late_same (some waiting) = refl
late_same (some (answered e)) = refl
late_same (some (rejected e)) = refl
late_same (some withdrawn) = refl

-- In every reachable state, the end of a request takes its id out and no other; it withdraws the
-- future of the request if that one still waits, and changes no other future.
close_request-futures :
    (p : Pending) (id j : String)
    → Reach p
    → (lookup j (close_request id p).pending ≡ (if id == j then none else lookup j p.pending))
      × (future j (close_request id p)
          ≡ (if (id == j) && is_waiting (future j p) then some withdrawn else future j p))
unfolding close_request pop
close_request-futures p id j r = by_late (is_late (lookup id p.futures)) refl
  where
    by_late :
        (b : Bool)
        → is_late (lookup id p.futures) ≡ b
        → (lookup j (close_request id p).pending ≡ (if id == j then none else lookup j p.pending))
          × (future j (close_request id p)
              ≡ (if (id == j) && is_waiting (future j p) then some withdrawn else future j p))
    by_late true e = ground (
      arith,
      e,
      withdraw-pending id j p,
      lookup-remove id j (withdraw id p).pending,
      withdraw-future id j p (Reach-IsTracked r),
    )
    by_late false e =
        ground
          (arith, e, eq_iff id j, late_same (lookup id p.futures), lookup-remove id j p.pending)

-- ===== src/Transport/Pending/Delivery.antt =====
-- What the pending requests guarantee (src/prow/connector/runtime_transport.py).
use prow_cti.Prelude.{
  Bool, List, Option, Option-cases, String, [], arith, eq_iff, false, if◌then◌else◌, inl, inr, map,
  none, refl, some, true, ◌&&◌, ◌==◌, ◌||◌, ◌∙◌, ◌∷◌, ◌≡◌,
}
use prow_cti.Prelude.Dict.{Dict, lookup, lookup-insert, lookup-remove, remove}
use prow_cti.Protocol.Messages.{Envelope}
use prow_cti.Transport.Pending.{
  Failure, Future, Pending, answer, fail_pending, pop, rejected, resolve, settle, settle_all,
  waiting,
}

abbrev pub is_waiting : Option Future → Bool
is_waiting (some waiting) = true
is_waiting _ = false

-- Every future that waits can be found by the dispatch loop.
pub record IsTracked (p : Pending) : Type 0 where
  pub tracked :
      (id : String) → is_waiting (lookup id p.futures) ≡ true → lookup id p.pending ≡ some tt

-- The future of an id.
abbrev pub future : String → Pending → Option Future
future id p = lookup id p.futures

pub settle-future :
    (id j : String) (f : Future) (p : Pending)
    → future j (settle id f p)
      ≡ (if id == j then (if is_waiting (future j p) then some f else future j p) else future j p)
unfolding settle
settle-future id j f p = ground (arith, eq_iff id j, lookup-insert id j f p.futures)

pub settle-pending : (id : String) (f : Future) (p : Pending) → (settle id f p).pending ≡ p.pending
unfolding settle
settle-pending id f p = ground arith

-- `env.id_ref == id`
abbrev pub refers_to : Option String → String → Bool
refers_to none j = false
refers_to (some id) j = id == j

-- The futures after an acknowledgement: the one that it refers to is settled if it waits.
abbrev pub resolved : Envelope → String → Option Future → Option Future
resolved env j f = if refers_to env.id_ref j && is_waiting f then some (answer env) else f

resolve_at :
    (env : Envelope) (p : Pending) (id j : String)
    → IsTracked p
    → env.id_ref ≡ some id
    → future j (resolve env p) ≡ resolved env j (future j p)
unfolding resolve pop
resolve_at env p id j t e = ground (
  arith,
  eq_iff id j,
  t.tracked j,
  settle-future id j (answer env) (record p { pending = remove id p.pending }),
)

-- An acknowledgement settles the future that it refers to, if that one waits, and no other.
pub resolve-future :
    (env : Envelope) (p : Pending) (j : String)
    → IsTracked p
    → future j (resolve env p) ≡ resolved env j (future j p)
unfolding resolve
resolve-future env p j t = elim (Option-cases env.id_ref) [
  | inl e ↦ ground arith
  | inr (id, e) ↦ resolve_at env p id j t e
]

pub resolve-pending :
    (env : Envelope) (p : Pending) (j : String)
    → lookup j (resolve env p).pending
      ≡ (if refers_to env.id_ref j then none else lookup j p.pending)
unfolding resolve
resolve-pending env p j = elim (Option-cases env.id_ref) [
  | inl e ↦ ground arith
  | inr (id, e) ↦ resolved_pending id e
]
  where
    resolved_pending :
        (id : String)
        → env.id_ref ≡ some id
        → lookup j (resolve env p).pending
          ≡ (if refers_to env.id_ref j then none else lookup j p.pending)
    resolved_pending id e = ground (
      arith,
      e,
      lookup-remove id j p.pending,
      settle-pending id (answer env) (record p { pending = remove id p.pending }),
    )

abbrev member : List String → String → Bool
member [] j = false
member (id ∷ ids) j = id == j || member ids j

lookup-member :
    (d : Dict (Unit {0})) (j : String)
    → lookup j d ≡ some tt
    → member (map (λ entry. entry.0) d) j ≡ true
unfolding lookup
lookup-member [] j h = cc
lookup-member ((k, u) ∷ d) j h = ground (arith, lookup-member d j)

settle_all-future :
    (ids : List String) (f : Failure) (p : Pending) (j : String)
    → future j (settle_all ids (rejected f) p)
      ≡ (if member ids j && is_waiting (future j p) then some (rejected f) else future j p)
unfolding settle_all
settle_all-future [] f p j = refl
settle_all-future (id ∷ ids) f p j =
    ground (
      arith,
      settle_all-future ids f (settle id (rejected f) p) j,
      settle-future id j (rejected f) p,
    )

settle_all-pending :
    (ids : List String) (f : Future) (p : Pending) → (settle_all ids f p).pending ≡ p.pending
unfolding settle_all
settle_all-pending [] f p = refl
settle_all-pending (id ∷ ids) f p = settle_all-pending ids f (settle id f p) ∙ settle-pending id f p

-- When the dispatch loop fails its requests, every future that waits is rejected with that failure,
-- and every other future keeps its outcome.
pub fail_pending-future :
    (e : Failure) (p : Pending) (j : String)
    → IsTracked p
    → future j (fail_pending e p)
      ≡ (if is_waiting (future j p) then some (rejected e) else future j p)
unfolding fail_pending
fail_pending-future e p j t = ground (
  arith,
  t.tracked j,
  lookup-member p.pending j,
  settle_all-future (map (λ entry. entry.0) p.pending) e (record p { pending = [] }) j,
)

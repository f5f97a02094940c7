-- ===== src/Transport/Pending/Reachable.antt =====
-- What holds of the pending requests in every reachable state
-- (src/prow/connector/runtime_transport.py).
use prow_cti.Prelude.{String, arith, eq_iff, false, if◌then◌else◌, some, ◌≡◌}
use prow_cti.Prelude.Dict.{lookup, lookup-insert, lookup-nil, lookup-remove, remove}
use prow_cti.Protocol.Messages.{Envelope}
use prow_cti.Transport.Pending.{
  Failure, Future, Pending, fail_pending, no_requests, pop, register, rejected, resolve, waiting,
  withdraw, withdrawn,
}
use prow_cti.Transport.Pending.Delivery.{
  IsTracked, fail_pending-future, future, is_waiting, resolve-future, resolve-pending, resolved,
  settle-future, settle-pending,
}

-- What the requests and the dispatch loop do to the pending requests. A request that is over takes
-- its id out: its future is then done, or nobody waits for it any more.
pub data Step : Pending → Pending → Type 0 where
  sent : (p : Pending) (id : String) → Step p (register id p)
  acknowledged : (p : Pending) (env : Envelope) → Step p (resolve env p)
  timed_out : (p : Pending) (id : String) → Step p (withdraw id p)
  over :
      (p : Pending) (id : String) → is_waiting (lookup id p.futures) ≡ false → Step p (pop id p).0
  ended : (p : Pending) (e : Failure) → Step p (fail_pending e p)

pub data Reach : Pending → Type 0 where
  begin : Reach no_requests
  next : {p q : Pending} → Reach p → Step p q → Reach q

register-IsTracked : (p : Pending) (id : String) → IsTracked p → IsTracked (register id p)
unfolding register
register-IsTracked p id t = record {
  tracked = λ j h.
      ground
        (arith, t.tracked j, lookup-insert id j tt p.pending, lookup-insert id j waiting p.futures);
}

resolve-IsTracked : (p : Pending) (env : Envelope) → IsTracked p → IsTracked (resolve env p)
resolve-IsTracked p env t = record {
  tracked = λ j h. ground (arith, t.tracked j, resolve-future env p j t, resolve-pending env p j);
}

withdraw-IsTracked : (p : Pending) (id : String) → IsTracked p → IsTracked (withdraw id p)
unfolding withdraw pop
withdraw-IsTracked p id t = record {
  tracked = λ j h. ground (
    arith,
    eq_iff id j,
    t.tracked j,
    lookup-remove id j p.pending,
    settle-future id j withdrawn (record p { pending = remove id p.pending }),
    settle-pending id withdrawn (record p { pending = remove id p.pending }),
  );
}

over-IsTracked :
    (p : Pending) (id : String)
    → is_waiting (lookup id p.futures) ≡ false
    → IsTracked p
    → IsTracked (pop id p).0
unfolding pop
over-IsTracked p id d t = record {
  tracked = λ j h. ground (arith, eq_iff id j, t.tracked j, lookup-remove id j p.pending);
}

ended-IsTracked : (p : Pending) (e : Failure) → IsTracked p → IsTracked (fail_pending e p)
ended-IsTracked p e t = record { tracked = λ j h. ground (arith, fail_pending-future e p j t) }

pub Reach-IsTracked : {p : Pending} → Reach p → IsTracked p
Reach-IsTracked begin = record { tracked = λ j h. ground (arith, lookup-nil {V = Future} j) }
Reach-IsTracked (next r (sent p id)) = register-IsTracked p id (Reach-IsTracked r)
Reach-IsTracked (next r (acknowledged p env)) = resolve-IsTracked p env (Reach-IsTracked r)
Reach-IsTracked (next r (timed_out p id)) = withdraw-IsTracked p id (Reach-IsTracked r)
Reach-IsTracked (next r (over p id d)) = over-IsTracked p id d (Reach-IsTracked r)
Reach-IsTracked (next r (ended p e)) = ended-IsTracked p e (Reach-IsTracked r)

-- In every reachable state an acknowledgement settles the future that it refers to, with the peer's
-- error if it carries one and with itself otherwise, if that future still waits; it changes no other
-- future and none that is done.
pub Reach-resolve :
    (p : Pending) (env : Envelope) (j : String)
    → Reach p
    → future j (resolve env p) ≡ resolved env j (future j p)
Reach-resolve p env j r = resolve-future env p j (Reach-IsTracked r)

-- In every reachable state, when the dispatch loop ends, every future that waits is rejected with the
-- failure of the loop, and every other keeps its outcome: no request sent before waits for ever.
pub Reach-fail_pending :
    (p : Pending) (e : Failure) (j : String)
    → Reach p
    → (future j (fail_pending e p)
        ≡ (if is_waiting (future j p) then some (rejected e) else future j p))
      × (is_waiting (future j (fail_pending e p)) ≡ false)
Reach-fail_pending p e j r =
    let all' = fail_pending-future e p j (Reach-IsTracked r) in (all', ground (arith, all'))

-- ===== src/Transport/Stdio/InFlight.antt =====
-- The bound on the operations in flight (src/prow/connector/transport_stdio.py).
use prow_cti.Prelude.{String, arith, refl, some, suc, ℕ, ◌<◌, ◌∙◌, ◌≡◌, ◌≤◌}
use prow_cti.Prelude.Int.{pos}
use prow_cti.Protocol.Messages.{Envelope}
use prow_cti.Transport.Stdio.{
  Peer, Stdio, acquire_slot, begin_operation, end_operation, ensure_dispatch, handle_incoming,
  max_in_flight, new_stdio, release_slot, reply_health_probe, reply_shutdown_request,
}

-- What happens between two points at which no failure of the stream has been met; the number
-- counts the operations that have begun and not ended.
pub data Step (peer : Peer) : Stdio × ℕ → Stdio × ℕ → Type 0 where
  began :
      (s q : Stdio) (n : ℕ) (id : String)
      → begin_operation id s ≡ some q
      → Step peer (s, n) (q, suc n)
  finished : (s : Stdio) (n : ℕ) (id : String) → Step peer (s, suc n) (end_operation id s, n)
  received :
      (s : Stdio) (n : ℕ) (env : Envelope)
      → Step peer (s, n) ((handle_incoming peer env s).stdio, n)

pub data Reach (peer : Peer) : Stdio × ℕ → Type 0 where
  begin : Reach peer (new_stdio, 0)
  next : {w x : Stdio × ℕ} → Reach peer w → Step peer w x → Reach peer x

pub record IsCounted (w : Stdio × ℕ) : Type 0 where
  pub counted : w.0.in_flight ≡ pos w.1
  pub bounded : w.1 ≤ max_in_flight

handle_incoming-in_flight :
    (peer : Peer) (env : Envelope) (s : Stdio)
    → (handle_incoming peer env s).stdio.in_flight ≡ s.in_flight
unfolding handle_incoming reply_health_probe reply_shutdown_request
handle_incoming-in_flight peer env s = ground arith

-- The counter that an operation finds decides whether it begins.
pub ensure_dispatch-in_flight : (s : Stdio) → (ensure_dispatch s).in_flight ≡ s.in_flight
unfolding ensure_dispatch
ensure_dispatch-in_flight s = ground arith

begin_operation-in_flight :
    (s q : Stdio) (n : ℕ) (id : String)
    → begin_operation id s ≡ some q
    → s.in_flight ≡ pos n
    → (q.in_flight ≡ pos (suc n)) × (n < max_in_flight)
unfolding begin_operation acquire_slot
begin_operation-in_flight s q n id e c = by_slot (ensure_dispatch s) refl
  where
    by_slot :
        (t : Stdio) → ensure_dispatch s ≡ t → (q.in_flight ≡ pos (suc n)) × (n < max_in_flight)
    by_slot t f = ground (arith, f, c, ensure_dispatch-in_flight s)

began-IsCounted :
    (s q : Stdio) (n : ℕ) (id : String)
    → begin_operation id s ≡ some q
    → IsCounted (s, n)
    → IsCounted (q, suc n)
began-IsCounted s q n id e c =
    let b = begin_operation-in_flight s q n id e c.counted in
    record { counted = b.0; bounded = omega (arith, b.1) }

-- Until the stream ends, the counter is the number of operations that have begun and not ended, and
-- that number never exceeds `MAX_ACKNOWLEDGED_IN_FLIGHT`, whatever the order in which operations begin,
-- messages arrive and operations end.
pub Reach-IsCounted : {peer : Peer} {w : Stdio × ℕ} → Reach peer w → IsCounted w
unfolding end_operation release_slot
Reach-IsCounted begin = record { counted = refl; bounded = omega arith }
Reach-IsCounted (next r (began s q n id e)) = began-IsCounted s q n id e (Reach-IsCounted r)
Reach-IsCounted (next r (finished s n id)) =
    let c = Reach-IsCounted r in
    record { counted = rw (c.counted); bounded = omega (arith, c.bounded) }
Reach-IsCounted {peer} (next r (received s n env)) =
    let c = Reach-IsCounted r in
    record { counted = handle_incoming-in_flight peer env s ∙ c.counted; bounded = c.bounded }

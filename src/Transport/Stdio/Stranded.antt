-- ===== src/Transport/Stdio/Stranded.antt =====
-- What the end of the stream does to the operations (src/prow/connector/transport_stdio.py).
use prow_cti.Prelude.{
  List, Option, String, [], ap, arith, eq_iff, eq_refl, false, length, none, refl, some, suc, true,
  zero, ℕ, ◌+◌, ◌∙◌, ◌∷◌, ◌≡◌, ◌≤◌,
}
use prow_cti.Prelude.Dict.{lookup-insert}
use prow_cti.Prelude.Int.{neg_part, negsuc, pos, pos_part, ℤ}
use prow_cti.Transport.Pending.{pop, register, waiting}
use prow_cti.Transport.Pending.Delivery.{future, is_waiting}
use prow_cti.Transport.Runtime.{Raised}
use prow_cti.Transport.Stdio.{
  Stdio, acquire_slot, begin_operation, close_dispatch, end_operation, ensure_dispatch,
  fail_all_pending, increment, max_in_flight, release_slot,
}
use prow_cti.Transport.Stdio.InFlight.{ensure_dispatch-in_flight}

-- Several operations in turn.
unfoldable pub end_all : List String → Stdio → Stdio
end_all [] s = s
end_all (id ∷ ids) s = end_all ids (end_operation id s)

unfoldable pub begin_all : List String → Stdio → Option Stdio
begin_all [] s = some s
begin_all (id ∷ ids) s = elim (begin_operation id s) [ none ↦ none | some t ↦ begin_all ids t ]

abbrev pub minus : ℕ → ℤ
minus zero = pos 0
minus (suc n) = negsuc n

end_all-in_flight :
    (ids : List String) (s : Stdio) (k : ℕ)
    → s.in_flight ≡ minus k
    → (end_all ids s).in_flight ≡ minus (k + length ids)
unfolding end_all end_operation release_slot
end_all-in_flight [] s k e = e ∙ ap minus (omega arith)
end_all-in_flight (id ∷ ids) s k e =
    end_all-in_flight ids (end_operation id s) (suc k) (ground (arith, e)) ∙ ap minus (omega arith)

close_dispatch-in_flight : (e : Option Raised) (s : Stdio) → (close_dispatch e s).in_flight ≡ pos 0
unfolding close_dispatch fail_all_pending
close_dispatch-in_flight none s = refl
close_dispatch-in_flight (some e) s = refl

begin_operation-room :
    (s : Stdio) (id : String) (k : ℕ)
    → pos_part s.in_flight + suc k ≤ max_in_flight + neg_part s.in_flight
    → (q : Stdio) × (begin_operation id s ≡ some q)
      × (pos_part q.in_flight + k ≤ max_in_flight + neg_part q.in_flight)
unfolding begin_operation acquire_slot
begin_operation-room s id k h = by_slot (ensure_dispatch s) refl
  where
    by_slot :
        (t : Stdio)
        → ensure_dispatch s ≡ t
        → (q : Stdio) × (begin_operation id s ≡ some q)
          × (pos_part q.in_flight + k ≤ max_in_flight + neg_part q.in_flight)
    by_slot t f = (
      record t { in_flight = increment t.in_flight; requests = register id t.requests },
      ground (arith, f, h, ensure_dispatch-in_flight s),
      ground (arith, f, h, ensure_dispatch-in_flight s),
    )

begin_all-cons :
    (id : String) (ids : List String) (s t q : Stdio)
    → begin_operation id s ≡ some t
    → begin_all ids t ≡ some q
    → begin_all (id ∷ ids) s ≡ some q
unfolding begin_all
begin_all-cons id ids s t q e f = ground (arith, e, f)

begin_all-room :
    (ids : List String) (s : Stdio)
    → pos_part s.in_flight + length ids ≤ max_in_flight + neg_part s.in_flight
    → (q : Stdio) × (begin_all ids s ≡ some q)
unfolding begin_all
begin_all-room [] s h = (s, refl)
begin_all-room (id ∷ ids) s h =
    let (t, e, room) = begin_operation-room s id (length ids) h in
    let (q, f) = begin_all-room ids t room in (q, begin_all-cons id ids s t q e f)

-- If the stream ends while operations are in flight, and these then end, the counter is minus their
-- number, and as many operations more than `MAX_ACKNOWLEDGED_IN_FLIGHT` begin one upon another:
-- `_fail_all_pending` resets the counter, and every operation that it fails releases its slot again.
pub end_all-exceeds :
    (unfinished later : List String) (e : Option Raised) (s : Stdio)
    → length later ≡ max_in_flight + length unfinished
    → let t = end_all unfinished (close_dispatch e s) in
      (t.in_flight ≡ minus (length unfinished)) × ((q : Stdio) × (begin_all later t ≡ some q))
end_all-exceeds unfinished later e s h =
    let c : (end_all unfinished (close_dispatch e s)).in_flight ≡ minus (length unfinished) =
      end_all-in_flight unfinished (close_dispatch e s) 0 (close_dispatch-in_flight e s)
      ∙ ap minus (omega arith) in
    (c, begin_all-room later (end_all unfinished (close_dispatch e s)) (ground (arith, c, h)))

-- What can still happen when the dispatch loop has ended: operations begin and end.
pub data Later : Stdio → Stdio → Type 0 where
  no_step : (s : Stdio) → Later s s
  then_began :
      {s t : Stdio} (q : Stdio) (id : String)
      → Later s t
      → begin_operation id t ≡ some q
      → Later s q
  then_ended : {s t : Stdio} (id : String) → Later s t → Later s (end_operation id t)

-- The loop is over, and the future of `j` waits.
pub record IsStranded (j : String) (s : Stdio) : Type 0 where
  pub started : s.dispatch_started ≡ true
  pub ended : s.running ≡ false
  pub waits : is_waiting (future j s.requests) ≡ true

begin_operation-dead :
    (id j : String) (s q : Stdio)
    → begin_operation id s ≡ some q
    → s.dispatch_started ≡ true
    → s.running ≡ false
    → (q.dispatch_started ≡ true)
      × (q.running ≡ false)
      × (is_waiting (future id q.requests) ≡ true)
      × (is_waiting (future j s.requests) ≡ true → is_waiting (future j q.requests) ≡ true)
unfolding begin_operation acquire_slot ensure_dispatch register
begin_operation-dead id j s q e d r = ground (
  arith,
  eq_iff id j,
  eq_refl id,
  lookup-insert id id waiting s.requests.futures,
  lookup-insert id j waiting s.requests.futures,
)

Later-IsStranded : (j : String) {s t : Stdio} → Later s t → IsStranded j s → IsStranded j t
unfolding end_operation release_slot pop
Later-IsStranded j (no_step s) h = h
Later-IsStranded j (then_began {t = t} q id l e) h =
    let i = Later-IsStranded j l h in
    let d = begin_operation-dead id j t q e i.started i.ended in
    record { started = d.0; ended = d.1; waits = d.3 i.waits }
Later-IsStranded j (then_ended id l) h =
    let i = Later-IsStranded j l h in
    record { started = i.started; ended = i.ended; waits = i.waits }

-- An operation that begins after the dispatch loop has ended is never answered, whatever the
-- connector does later: its future waits for ever, since `_ensure_dispatch` starts no second loop.
pub begin_operation-IsStranded :
    (id : String) (s q r : Stdio)
    → s.dispatch_started ≡ true
    → s.running ≡ false
    → begin_operation id s ≡ some q
    → Later q r
    → IsStranded id r
begin_operation-IsStranded id s q r d n e l =
    let b = begin_operation-dead id id s q e d n in
    Later-IsStranded id l (record { started = b.0; ended = b.1; waits = b.2 })

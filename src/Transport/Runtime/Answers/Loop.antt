-- ===== src/Transport/Runtime/Answers/Loop.antt =====
-- The dispatch loop as a whole: what it handles and what it writes
-- (src/prow/connector/runtime_transport.py).
use prow_cti.Prelude.{
  List, Option, Option-cases, [], ap, append-nil, append_assoc, arith, false, inl, inr, map, none,
  refl, some, sym, ◌++◌, ◌∷◌, ◌≡◌, ◌≢◌,
}
use prow_cti.Prelude.Int.{ℤ}
use prow_cti.Protocol.Messages.{Envelope}
use prow_cti.Transport.Runtime.{Dispatched, Raised, Runtime, Services, dispatch_all, dispatch_one}
use prow_cti.Transport.Runtime.Answers.{all_owed, dispatch_one-Answered, is_none, label, owed}

module _ {S : Type 0} (v : ℤ) (h : Services S) where
  pub halted :
      (envs : List Envelope) (ending : Option Raised) (env : Envelope) (t : Runtime S) (e : Raised)
      → (dispatch_one v h env t).raised ≡ some e
      → dispatch_all v h (env ∷ envs) ending t ≡ dispatch_one v h env t
  unfolding dispatch_all
  halted envs ending env t e r = ground (arith, r)

  pub continued :
      (envs : List Envelope) (ending : Option Raised) (env : Envelope) (t : Runtime S)
      → (dispatch_one v h env t).raised ≡ none
      → dispatch_all v h (env ∷ envs) ending t
        ≡ dispatch_all v h envs ending (dispatch_one v h env t).runtime
  unfolding dispatch_all
  continued envs ending env t r = ground (arith, r)

  -- The loop: the messages read are those handled and the rest; what is written is the answers owed
  -- to the handled ones, and a rest is left only where the loop raised.
  pub record Handled (envs : List Envelope) (ending : Option Raised) (t : Runtime S)
      (d : Dispatched S) : Type 0 where
    pub handled : List Envelope
    pub unhandled : List Envelope
    pub split : envs ≡ handled ++ unhandled
    pub answers : map label d.runtime.written ≡ map label t.written ++ all_owed handled
    pub over : unhandled ≡ [] → d.raised ≡ ending
    pub stopped : unhandled ≢ [] → is_none d.raised ≡ false

  -- The loop answers the emit, set-state and get-state messages that it handles, each exactly once, in
  -- the order in which they were read, with the acknowledgement of its own kind and with its id, and
  -- writes nothing else; it leaves messages unhandled only where it raises, and ends with the
  -- ending of the stream where it handles all.
  pub dispatch_all-Handled :
      (envs : List Envelope) (ending : Option Raised) (t : Runtime S)
      → Handled envs ending t (dispatch_all v h envs ending t)
  unfolding dispatch_all
  dispatch_all-Handled [] ending t = record {
    handled = [];
    unhandled = [];
    split = refl;
    answers = sym (append-nil (map label t.written));
    over = λ e. refl;
    stopped = λ n. elim (n refl) [ ];
  }
  dispatch_all-Handled (env ∷ envs) ending t = elim (Option-cases (dispatch_one v h env t).raised) [
    | inr (e, r) ↦ record {
      handled = [];
      unhandled = env ∷ envs;
      split = refl;
      answers = rw (
        halted envs ending env t e r,
        (dispatch_one-Answered v h env t).1 (ground arith),
        append-nil (map label t.written),
      );
      over = λ e. cc;
      stopped = λ n. ground arith;
    }
    | inl r ↦
        let d = dispatch_one v h env t in
        let more = dispatch_all-Handled envs ending d.runtime in
        record {
          handled = env ∷ more.handled;
          unhandled = more.unhandled;
          split = ap (λ l. env ∷ l) more.split;
          answers = rw (
            continued envs ending env t r,
            more.answers,
            (dispatch_one-Answered v h env t).0 r,
            append_assoc (map label t.written) (owed env) (all_owed more.handled),
          );
          over = λ e. ground (arith, more.over e);
          stopped = λ n. ground (arith, more.stopped n);
        }
  ]

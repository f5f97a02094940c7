-- ===== src/Supervisor/State/Trace.antt =====
-- Sequences of transitions: what a run of the state machine can and cannot do
-- (src/prow/connector/supervisor_state.py).
use prow_cti.Prelude.{
  All, Bool, List, [], arith, false, inl, refl, true, ℕ, ◌+◌, ◌↔◌, ◌∷◌, ◌≡◌, ◌≤◌, ◌⊎◌,
}
use prow_cti.Supervisor.State.{
  ConnectorState, Transition, TransitionEvent, apply_transition, circuit_break_recorded,
  circuit_broken, circuit_clear_restart, crashed, dead, first_operational_message, hello_succeeded,
  not_started, ok, ready, restart_backoff_elapsed, start_failure_to_crashed, start_invoked,
  starting, ◌>>=◌,
}

-- The events of a run, one after another.
unfoldable pub run : ConnectorState → List TransitionEvent → Transition ConnectorState
run s [] = ok s
run s (e ∷ es) = apply_transition s e >>= λ t. run t es

abbrev pub count : (TransitionEvent → ℕ) → List TransitionEvent → ℕ
count weight [] = 0
count weight (e ∷ es) = weight e + count weight es

-- The events that put a new subprocess under way.
abbrev pub spawns : TransitionEvent → ℕ
spawns start_invoked = 1
spawns restart_backoff_elapsed = 1
spawns circuit_clear_restart = 1
spawns _ = 0

-- The events that end a start.
abbrev pub outcomes : TransitionEvent → ℕ
outcomes hello_succeeded = 1
outcomes start_failure_to_crashed = 1
outcomes _ = 0

abbrev pub hellos : TransitionEvent → ℕ
hellos hello_succeeded = 1
hellos _ = 0

abbrev pub first_messages : TransitionEvent → ℕ
first_messages first_operational_message = 1
first_messages _ = 0

abbrev pub is_starting : ConnectorState → ℕ
is_starting starting = 1
is_starting _ = 0

abbrev pub is_ready : ConnectorState → ℕ
is_ready ready = 1
is_ready _ = 0

step_outcomes :
    (s : ConnectorState) (e : TransitionEvent) (t : ConnectorState)
    → apply_transition s e ≡ ok t
    → outcomes e + is_starting t ≤ spawns e + is_starting s
unfolding apply_transition
step_outcomes s e t h = ground arith

step_messages :
    (s : ConnectorState) (e : TransitionEvent) (t : ConnectorState)
    → apply_transition s e ≡ ok t
    → first_messages e + is_ready t ≤ hellos e + is_ready s
unfolding apply_transition
step_messages s e t h = ground arith

-- The state after the first event of a run that succeeds.
run_inversion :
    (s : ConnectorState) (e : TransitionEvent) (es : List TransitionEvent) {u : ConnectorState}
    → run s (e ∷ es) ≡ ok u
    → (t : ConnectorState) × (apply_transition s e ≡ ok t) × (run t es ≡ ok u)
unfolding run
run_inversion s e es h = ground arith

module _ (up down : TransitionEvent → ℕ) (held : ConnectorState → ℕ)
    (step : (s : ConnectorState) (e : TransitionEvent) (t : ConnectorState)
      → apply_transition s e ≡ ok t
      → up e + held t ≤ down e + held s) where
  run_potential :
      (es : List TransitionEvent) (s : ConnectorState) {u : ConnectorState}
      → run s es ≡ ok u
      → count up es + held u ≤ count down es + held s
  unfolding run
  run_potential [] s h = ground arith
  run_potential (e ∷ es) s h =
      let (t, first, rest) = run_inversion s e es h in
      omega (arith, step s e t first, run_potential es t rest)

-- In every run from the entry state, each successful or failed start belongs to a spawn of its own,
-- and each first operational message to a hello of its own: no subprocess is reported ready twice,
-- and none is running before its handshake.
run_order :
    (es : List TransitionEvent) (s : ConnectorState)
    → run not_started es ≡ ok s
    → (count first_messages es + is_ready s ≤ count hellos es)
      × (count hellos es ≤ count outcomes es)
      × (count outcomes es + is_starting s ≤ count spawns es)
run_order es s h = (
  omega (arith, run_potential first_messages hellos is_ready step_messages es not_started h),
  hellos-le-outcomes es,
  omega (arith, run_potential outcomes spawns is_starting step_outcomes es not_started h),
)
  where
    hellos-le-outcomes : (l : List TransitionEvent) → count hellos l ≤ count outcomes l
    hellos-le-outcomes [] = omega arith
    hellos-le-outcomes (e ∷ l) = ground (arith, hellos-le-outcomes l)

-- The circuit breaker opens from a crash and by its own event, and in no other way.
pub apply_transition-circuit_broken_iff :
    (s : ConnectorState) (e : TransitionEvent)
    → (apply_transition s e ≡ ok circuit_broken) ↔ ((s ≡ crashed) × (e ≡ circuit_break_recorded))
unfolding apply_transition
apply_transition-circuit_broken_iff s e = (λ h. ground arith, λ h. ground arith)

-- An operator's events: a start, and clearing the breaker.
abbrev pub by_operator : TransitionEvent → Bool
by_operator start_invoked = true
by_operator circuit_clear_restart = true
by_operator _ = false

IsDown : ConnectorState → Type 0
IsDown s = (s ≡ circuit_broken) ⊎ (s ≡ dead)

IsDown-step :
    (s : ConnectorState) (e : TransitionEvent) (t : ConnectorState)
    → IsDown s
    → by_operator e ≡ false
    → apply_transition s e ≡ ok t
    → IsDown t
unfolding apply_transition IsDown
IsDown-step s e t d o h = ground arith

run-IsDown :
    (es : List TransitionEvent) (s : ConnectorState) {t : ConnectorState}
    → IsDown s
    → All (λ e. by_operator e ≡ false) es
    → run s es ≡ ok t
    → IsDown t
unfolding run
run-IsDown [] s d o h = ground arith
run-IsDown (e ∷ es) s d o h =
    let (t, first, rest) = run_inversion s e es h in
    run-IsDown es t (IsDown-step s e t d o.0 first) o.1 rest

-- A broken circuit stays broken, or is shut down, until an operator clears it or starts the
-- instance again: nothing automatic leaves it.
run-circuit_broken :
    (es : List TransitionEvent) (t : ConnectorState)
    → All (λ e. by_operator e ≡ false) es
    → run circuit_broken es ≡ ok t
    → (t ≡ circuit_broken) ⊎ (t ≡ dead)
unfolding IsDown
run-circuit_broken es t o h = run-IsDown es circuit_broken (inl refl) o h

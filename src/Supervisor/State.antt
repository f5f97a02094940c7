-- ===== src/Supervisor/State.antt =====
-- The lifecycle state machine of one connector instance (src/prow/connector/supervisor_state.py).
use prow_cti.Prelude.{Bool, true, false, Option, none, some}
pub mod Trace

-- `ConnectorState`
pub data ConnectorState : Type 0 where
  not_started starting ready running draining dead crashed circuit_broken : ConnectorState

-- `SupervisorTransitionEvent`
pub data TransitionEvent : Type 0 where
  start_invoked hello_succeeded start_failure_to_crashed first_operational_message : TransitionEvent
  shutdown_requested graceful_process_exit graceful_exit_without_drain : TransitionEvent
  crash_while_draining crash_while_active restart_backoff_elapsed : TransitionEvent
  circuit_break_recorded policy_stop_to_dead circuit_clear_restart : TransitionEvent
  restart_abort_to_dead : TransitionEvent

-- `SUPERVISOR_TRANSITION_TABLE`, one clause for each entry, in the order of the source.
unfoldable pub transition_table : ConnectorState → TransitionEvent → Option ConnectorState
transition_table not_started start_invoked = some starting
transition_table dead start_invoked = some starting
transition_table starting hello_succeeded = some ready
transition_table starting start_failure_to_crashed = some crashed
transition_table starting shutdown_requested = some draining
transition_table ready first_operational_message = some running
transition_table ready shutdown_requested = some draining
transition_table running shutdown_requested = some draining
transition_table ready graceful_exit_without_drain = some dead
transition_table running graceful_exit_without_drain = some dead
transition_table ready crash_while_active = some crashed
transition_table running crash_while_active = some crashed
transition_table draining graceful_process_exit = some dead
transition_table draining crash_while_draining = some crashed
transition_table crashed restart_backoff_elapsed = some starting
transition_table crashed circuit_break_recorded = some circuit_broken
transition_table crashed policy_stop_to_dead = some dead
transition_table crashed restart_abort_to_dead = some dead
transition_table circuit_broken circuit_clear_restart = some starting
transition_table circuit_broken shutdown_requested = some dead
transition_table _ _ = none

-- A value, or `InvalidStateTransitionError`.
pub data Transition {ℓ} (A : Type ℓ) : Type ℓ where
  ok : A → Transition A
  invalid_transition : Transition A

infixl 5 ◌>>=◌
abbrev pub ◌>>=◌ {ℓ κ} :
    {A : Type ℓ} {B : Type κ} → Transition A → (A → Transition B) → Transition B
ok a >>= f = f a
invalid_transition >>= f = invalid_transition

abbrev found : Option ConnectorState → Transition ConnectorState
found (some s) = ok s
found none = invalid_transition

-- `apply_transition`: a pair that the table lacks raises.
unfoldable pub apply_transition : ConnectorState → TransitionEvent → Transition ConnectorState
unfolding transition_table
apply_transition current event = found (transition_table current event)

-- `with contextlib.suppress(InvalidStateTransitionError)`: the state stays on an invalid pair.
abbrev or_keep : ConnectorState → Transition ConnectorState → ConnectorState
or_keep current (ok s) = s
or_keep current invalid_transition = current

unfoldable pub transition_suppressed : ConnectorState → TransitionEvent → ConnectorState
unfolding apply_transition
transition_suppressed current event = or_keep current (apply_transition current event)

-- `state in (READY, RUNNING)`
abbrev pub is_active : ConnectorState → Bool
is_active ready = true
is_active running = true
is_active _ = false

-- `state in (NOT_STARTED, DEAD)`
abbrev pub is_startable : ConnectorState → Bool
is_startable not_started = true
is_startable dead = true
is_startable _ = false

-- `state in (READY, RUNNING, STARTING, DRAINING)`
abbrev pub needs_shutdown : ConnectorState → Bool
needs_shutdown ready = true
needs_shutdown running = true
needs_shutdown starting = true
needs_shutdown draining = true
needs_shutdown _ = false

-- `state in (DEAD, CIRCUIT_BROKEN, NOT_STARTED)`
abbrev pub is_idle : ConnectorState → Bool
is_idle dead = true
is_idle circuit_broken = true
is_idle not_started = true
is_idle _ = false

-- `state in (DEAD, DRAINING, CIRCUIT_BROKEN)`
abbrev pub blocks_restart : ConnectorState → Bool
blocks_restart dead = true
blocks_restart draining = true
blocks_restart circuit_broken = true
blocks_restart _ = false

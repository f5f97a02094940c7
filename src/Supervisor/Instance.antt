-- ===== src/Supervisor/Instance.antt =====
-- One supervised connector instance (src/prow/connector/instance.py). Each definition is what runs
-- under the instance's lock, from one `await` to the next; the tasks that the code creates are
-- fields of the state, and what happens while it waits is an argument or another step.
pub mod Tests
pub mod Stuck
use prow_cti.Prelude.{
  Bool, List, Option, [], false, if◌then◌else◌, length, none, some, true, ℕ, ◌&&◌, ◌++◌, ◌||◌, ◌∷◌,
}
use prow_cti.Supervisor.Policy.{
  RestartDecision, RestartPolicy, circuit_break, restart, should_restart, stop,
  trim_restart_timestamps,
}
use prow_cti.Supervisor.Process.{ExitReason, graceful_shutdown}
use prow_cti.Supervisor.State.{
  ConnectorState, Transition, TransitionEvent, apply_transition, blocks_restart,
  circuit_break_recorded, circuit_broken, circuit_clear_restart, crash_while_active,
  crash_while_draining, crashed, dead, draining, first_operational_message,
  graceful_exit_without_drain, graceful_process_exit, hello_succeeded, invalid_transition, is_idle,
  is_startable, needs_shutdown, not_started, ok, policy_stop_to_dead, ready, restart_abort_to_dead,
  restart_backoff_elapsed, running, shutdown_requested, start_failure_to_crashed, start_invoked,
  starting, transition_suppressed, ◌>>=◌,
}
pub mod Exits
pub mod History
pub mod Shutdown

-- The mutable state of `ConnectorInstance`. A process is known by a number; `watcher` is the process
-- that the watcher task waits for, and `pending_restart` the delay of the scheduled restart.
pub record Instance : Type 0 where
  pub state : ConnectorState
  pub process : Option ℕ
  pub restart_timestamps : List ℕ
  pub last_restart_at : Option ℕ
  pub watcher : Option ℕ
  pub pending_restart : Option ℕ
  pub shutdown_requested : Bool

-- `ConnectorInstance.__init__`
abbrev pub new_instance : Instance
new_instance = record {
  state = not_started;
  process = none;
  restart_timestamps = [];
  last_restart_at = none;
  watcher = none;
  pending_restart = none;
  shutdown_requested = false;
}

-- `_transition_locked`
unfoldable pub transition_locked : TransitionEvent → Instance → Transition Instance
transition_locked event i = apply_transition i.state event >>= λ s. ok (record i { state = s })

-- `with contextlib.suppress(InvalidStateTransitionError): self._transition_locked(event)`
unfoldable pub transition_or_keep : TransitionEvent → Instance → Instance
transition_or_keep event i = record i { state = transition_suppressed i.state event }

-- The locked part of `start`.
unfoldable pub start : Instance → Transition Instance
unfolding transition_locked
start i =
    if is_startable i.state
    then (do j ← transition_locked start_invoked i; ok (record j { shutdown_requested = false }))
    else invalid_transition

-- `_spawn_process_body`, before and after the process was started.
unfoldable pub spawn_begin : ℕ → Instance → Instance
spawn_begin process i = record i { process = some process }

abbrev pub start_event : Bool → TransitionEvent
start_event has_transport = if has_transport then hello_succeeded else start_failure_to_crashed

unfoldable pub spawn_finish : ℕ → Bool → Instance → Transition Instance
unfolding transition_locked
spawn_finish process has_transport i = do
  j ← transition_locked (start_event has_transport) i
  ok (record j { pending_restart = none; watcher = some process })

-- `_emit` of `_wrap_emit_handler`, up to the call of the user's handler.
unfoldable pub on_emit : Instance → Instance
unfolding transition_or_keep
on_emit i = elim i.state [ ready ↦ transition_or_keep first_operational_message i | _ ↦ i ]

-- The first part of `_handle_process_exit`: `left` where it returns, `goes_on` where the restart
-- policy is to decide.
pub data Noted : Type 0 where
  left goes_on : Instance → Noted

abbrev and_leave : Transition Instance → Transition Noted
and_leave t = t >>= λ i. ok (left (record i { process = none }))

abbrev and_go_on : Transition Instance → Transition Noted
and_go_on t = t >>= λ i. ok (goes_on i)

abbrev pub is_graceful : ExitReason → Bool
is_graceful graceful_shutdown = true
is_graceful _ = false

unfoldable pub note_exit : ConnectorState → ExitReason → Instance → Transition Noted
unfolding transition_locked
note_exit draining reason i =
    if is_graceful reason
    then and_leave (transition_locked graceful_process_exit i)
    else and_go_on (transition_locked crash_while_draining i)
note_exit ready reason i =
    if is_graceful reason
    then and_leave (transition_locked graceful_exit_without_drain i)
    else and_go_on (transition_locked crash_while_active i)
note_exit running reason i =
    if is_graceful reason
    then and_leave (transition_locked graceful_exit_without_drain i)
    else and_go_on (transition_locked crash_while_active i)
note_exit starting reason i = and_go_on (transition_locked start_failure_to_crashed i)
note_exit _ reason i = ok (goes_on i)

-- The bookkeeping before the policy is asked.
unfoldable pub record_exit : RestartPolicy → ℕ → Instance → Instance
record_exit p now i =
    let trimmed = trim_restart_timestamps i.restart_timestamps now p.window_duration in
    record i {
      restart_timestamps = trim_restart_timestamps (trimmed ++ now ∷ []) now p.window_duration;
      last_restart_at = some now;
    }

-- What is done with the decision: an assignment behind each suppressed transition forces the state;
-- a restart is scheduled as a task that sleeps first.
unfoldable pub apply_decision : RestartDecision → Instance → Instance
unfolding transition_or_keep
apply_decision (RestartDecision.stop reason) i =
    let j = transition_or_keep policy_stop_to_dead i in
    record j { state = dead; restart_timestamps = []; process = none }
apply_decision (circuit_break n) i =
    let j = transition_or_keep circuit_break_recorded i in
    record j { state = circuit_broken; process = none }
apply_decision (restart delay) i = record i { process = none; pending_restart = some delay }

decide : RestartPolicy → ExitReason → ℕ → Noted → Instance
unfolding record_exit apply_decision
decide p reason now (left i) = i
decide p reason now (goes_on i) =
    let j = record_exit p now i in
    apply_decision (should_restart p reason j.restart_timestamps now) j

-- `_handle_process_exit`
unfoldable pub handle_process_exit : RestartPolicy → ExitReason → ℕ → Instance → Transition Instance
unfolding note_exit decide
handle_process_exit p reason now i =
    note_exit i.state reason i >>= λ noted. ok (decide p reason now noted)

-- `_sleep_then_restart` when its sleep is over: the instance, and whether a process is spawned.
unfoldable pub wake : Instance → Instance × Bool
unfolding transition_locked
wake i =
    if i.shutdown_requested || blocks_restart i.state
    then (i, false)
    else elim (transition_locked restart_backoff_elapsed i) [
      | ok j ↦ (j, true)
      | invalid_transition ↦ (i, false)
    ]

-- The locked part of `request_shutdown`: the instance, and the process that is then told to stop.
unfoldable pub request_shutdown : Instance → Instance × Option ℕ
unfolding transition_or_keep
request_shutdown i =
    let j = record i { shutdown_requested = true; pending_restart = none } in
    elim i.state [
      | crashed ↦
          let k = transition_or_keep restart_abort_to_dead j in
          (record k { state = dead; restart_timestamps = []; process = none }, none)
      | circuit_broken ↦
          let k = transition_or_keep shutdown_requested j in
          (record k { state = dead; process = none }, none)
      | starting ↦ (transition_or_keep shutdown_requested j, j.process)
      | ready ↦ (transition_or_keep shutdown_requested j, j.process)
      | running ↦ (transition_or_keep shutdown_requested j, j.process)
      | _ ↦ (j, j.process)
    ]

-- The locked part of `clear_circuit_break`.
unfoldable pub clear_circuit_break : Instance → Transition Instance
unfolding transition_locked
clear_circuit_break i = elim i.state [
  | circuit_broken ↦
      transition_locked circuit_clear_restart
        (record i { restart_timestamps = []; shutdown_requested = false })
  | _ ↦ invalid_transition
]

-- `restart_attempts_in_window`: reading it trims the list.
unfoldable pub restart_attempts_in_window : RestartPolicy → ℕ → Instance → Instance × ℕ
restart_attempts_in_window p now i =
    let kept = trim_restart_timestamps i.restart_timestamps now p.window_duration in
    (record i { restart_timestamps = kept }, length kept)

-- `run_fetch`, up to the spawn: `settle` is what the other tasks do to the instance while a
-- shutdown and the background tasks are awaited. The flag says whether a process is spawned.
unfoldable pub run_fetch : (Instance → Instance) → Instance → Transition (Instance × Bool)
unfolding start request_shutdown
run_fetch settle i = elim i.state [
  | circuit_broken ↦ ok (i, false)
  | _ ↦
      let must_stop = needs_shutdown i.state in
      let j = if must_stop then settle (request_shutdown i).0 else i in
      if (must_stop || is_startable i.state) && is_startable j.state
      then (do k ← start j; ok (k, true))
      else ok (j, false)
]

-- `wait_until_idle`, over what it sees at each poll: the state, and whether the deadline has passed.
-- `none` is that it still waits when the polls are used up.
pub data Waited : Type 0 where
  idle timed_out : Waited

unfoldable pub wait_until_idle : List (ConnectorState × Bool) → Option Waited
wait_until_idle [] = none
wait_until_idle ((s, late) ∷ polls) =
    let rest = wait_until_idle polls in
    if is_idle s then some idle else if late then some timed_out else rest

-- ===== src/Supervisor/Tests.antt =====
-- Concrete inputs for the supervisor's parts (src/prow/connector: restart_policy.py, supervisor.py,
-- supervisor_state.py, process.py, duration.py and scheduler.py).
use prow_cti.Prelude.{
  List, String, [], arith, eqb, false, filter, if◌then◌else◌, leb, length, none, refl, some, true,
  ℕ, ◌&&◌, ◌*◌, ◌++◌, ◌-◌, ◌<◌, ◌∷◌, ◌≡◌, ◌≤◌, ◌⊎◌,
}
use prow_cti.Protocol.Messages.{HealthStatus}
use prow_cti.Supervisor.Duration.{
  IsUnicode, Unicode, lstrip, parse_iso8601_duration, rstrip, scan_digits, seconds, unit_seconds,
}
use prow_cti.Supervisor.Duration.Accepts.{digit_text, parse_iso8601_duration-digits}
use prow_cti.Supervisor.Health.{Probe, ack, every_second, exception}
use prow_cti.Supervisor.Policy.{RestartDecision, backoff, default_policy, second, should_restart}
use prow_cti.Supervisor.Process.{
  ConnectorProcess, ExitReason, Outcome, ProcessState, negotiated, new_process, returned,
}
use prow_cti.Supervisor.Process.StderrRing.{IsBounded, StderrRing, append, append-IsBounded, total}
use prow_cti.Supervisor.State.{
  ConnectorState, Transition, TransitionEvent, apply_transition, circuit_broken, dead, not_started,
  ready, starting,
}
use prow_cti.Supervisor.State.Trace.{run}
use prow_cti.Supervisor.Process

abbrev pub ascii : Unicode
ascii = record {
  decimal = λ c. if leb b'0' c && leb c b'9' then some (c - b'0') else none;
  is_space = λ c. eqb c b' ';
}

ascii-IsUnicode : IsUnicode ascii
ascii-IsUnicode = record { digit = λ d h. ground arith; letter = λ c h g. ground arith }

second_crash :
    should_restart default_policy ExitReason.crashed (1 ∷ 2 ∷ []) 3
    ≡ RestartDecision.restart (2 * second)
unfolding should_restart filter backoff
second_crash = refl

abbrev rounds : List (ConnectorState × Probe)
rounds =
    (ready, exception)
    ∷ (ready, ack HealthStatus.healthy)
    ∷ (ready, exception)
    ∷ (ready, ack HealthStatus.unhealthy)
    ∷ (starting, exception)
    ∷ []

-- Two misses that follow one another, in the third and fourth round, and the kill after them.
rounds-kill : every_second 0 rounds ≡ false ∷ false ∷ false ∷ true ∷ false ∷ []
unfolding every_second
rounds-kill = refl

abbrev events : List TransitionEvent
events = TransitionEvent.start_invoked ∷ TransitionEvent.hello_succeeded ∷ []

events-run : run not_started events ≡ Transition.ok ready
unfolding run apply_transition
events-run = refl

abbrev breaking : List TransitionEvent
breaking = TransitionEvent.shutdown_requested ∷ []

breaking-run : run circuit_broken breaking ≡ Transition.ok dead
unfolding run apply_transition
breaking-run = refl

abbrev two_lines : StderrRing
two_lines = record { lines = "one" ∷ "two" ∷ []; max_lines = 2; max_bytes = 100; approx_bytes = 8 }

two_lines-IsBounded : IsBounded two_lines
two_lines-IsBounded = record { counted = refl; few = omega arith; small = omega arith }

append-IsBounded_example :
    IsBounded (append two_lines "three")
    × ((gone : List String) × (two_lines.lines ++ "three" ∷ []
          ≡ gone ++ (append two_lines "three").lines))
    × ((2 ≤ length (append two_lines "three").lines)
        ⊎ (2 < 2)
        ⊎ (100 < total ("two" ∷ "three" ∷ [])))
append-IsBounded_example =
    append-IsBounded two_lines "three" ("one" ∷ []) ("two" ∷ "three" ∷ []) two_lines-IsBounded refl

abbrev running_process : ConnectorProcess
running_process = record new_process {
  state = ProcessState.running;
  has_proc = true;
  has_transport = true;
}

negotiated-start : Process.start new_process negotiated ≡ Outcome.returned running_process
unfolding Process.start
negotiated-start = refl

-- " 30m "
abbrev pub half_an_hour : List ℕ
half_an_hour = b' ' ∷ (digit_text (3 ∷ 0 ∷ []) ++ b'm' ∷ (b' ' ∷ []))

minutes : unit_seconds b'm' ≡ some 60
unfolding unit_seconds
minutes = refl

parse_iso8601_duration-digits_example :
    parse_iso8601_duration ascii half_an_hour ≡ seconds (30 * 60)
parse_iso8601_duration-digits_example =
    parse_iso8601_duration-digits ascii (b' ' ∷ []) (b' ' ∷ []) 3 (0 ∷ []) b'm' 60 ascii-IsUnicode
      (refl, tt) (refl, tt) (omega arith, (omega arith, tt)) minutes

half_an_hour-seconds : parse_iso8601_duration ascii half_an_hour ≡ seconds 1800
unfolding parse_iso8601_duration lstrip rstrip scan_digits unit_seconds
half_an_hour-seconds = refl

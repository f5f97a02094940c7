-- ===== src/Supervisor/Policy.antt =====
-- The restart policy of an instance (src/prow/connector/restart_policy.py). A `datetime` is its
-- number of microseconds since `datetime.min`, and a delay is in microseconds too. Subtraction
-- stops at 0, which no comparison with a later time can tell from a time before `datetime.min`
-- (where Python raises `OverflowError`).
use prow_cti.Prelude.{
  Bool, List, [], false, filter, if◌then◌else◌, leb, length, not, suc, true, zero, ℕ, ◌*◌, ◌-◌, ◌^◌,
  ◌∷◌,
}
use prow_cti.Supervisor.Process.{ExitReason, crashed, protocol_error, timeout_killed}
pub mod Window

-- `RestartPolicy`. The set of exit reasons is its characteristic function.
pub record RestartPolicy : Type 0 where
  pub backoff_schedule : List ℕ
  pub backoff_ceiling : ℕ
  pub max_restarts_in_window : ℕ
  pub window_duration : ℕ
  pub restartable : ExitReason → Bool

abbrev pub second : ℕ
second = 10 ^ 6

abbrev pub default_restartable : ExitReason → Bool
default_restartable crashed = true
default_restartable timeout_killed = true
default_restartable protocol_error = true
default_restartable _ = false

-- The defaults of `RestartPolicy`.
abbrev pub default_policy : RestartPolicy
default_policy = record {
  backoff_schedule = 1 * second ∷ (2 * second) ∷ (4 * second) ∷ (8 * second) ∷ (30 * second) ∷ [];
  backoff_ceiling = 30 * second;
  max_restarts_in_window = 3;
  window_duration = 300 * second;
  restartable = default_restartable;
}

-- `RestartDecision`: the action with what the text of its reason names.
pub data RestartDecision : Type 0 where
  stop : ExitReason → RestartDecision
  circuit_break : ℕ → RestartDecision
  restart : ℕ → RestartDecision

-- `t >= now - window`
abbrev pub in_window : ℕ → ℕ → ℕ → Bool
in_window window now t = leb (now - window) t

-- `backoff_schedule_seconds[idx] if idx < len(…) else backoff_ceiling_seconds`
unfoldable pub backoff : List ℕ → ℕ → ℕ → ℕ
backoff [] ceiling idx = ceiling
backoff (d ∷ ds) ceiling zero = d
backoff (d ∷ ds) ceiling (suc idx) = backoff ds ceiling idx

-- `should_restart`
unfoldable pub should_restart : RestartPolicy → ExitReason → List ℕ → ℕ → RestartDecision
should_restart p reason timestamps now =
    let recent = length (filter (in_window p.window_duration now) timestamps) in
    if not (p.restartable reason)
    then stop reason
    else if leb p.max_restarts_in_window recent
    then circuit_break recent
    else restart (backoff p.backoff_schedule p.backoff_ceiling (recent - 1))

-- `trim_restart_timestamps`: the list that is left in place.
unfoldable pub trim_restart_timestamps : List ℕ → ℕ → ℕ → List ℕ
trim_restart_timestamps timestamps now window = filter (in_window window now) timestamps

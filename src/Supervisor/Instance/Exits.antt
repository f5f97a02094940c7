-- ===== src/Supervisor/Instance/Exits.antt =====
-- What an instance does when its process exits (src/prow/connector/instance.py).
use prow_cti.Prelude.{arith, false, inl, inr, none, refl, some, ℕ, ◌≡◌, ◌⊎◌}
use prow_cti.Supervisor.Instance.{
  Instance, apply_decision, decide, goes_on, handle_process_exit, left, note_exit, record_exit,
}
use prow_cti.Supervisor.Policy.{
  RestartDecision, RestartPolicy, circuit_break, restart, should_restart,
}
use prow_cti.Supervisor.Process.{ExitReason}
use prow_cti.Supervisor.State.{apply_transition, circuit_broken, crashed, dead, is_idle, ok}

-- The instance after an exit: down, cut off, or crashed with a restart scheduled.
pub data Settled (j : Instance) : Type 0 where
  is_down : j.state ≡ dead → Settled j
  is_cut_off : j.state ≡ circuit_broken → Settled j
  awaits_restart : (d : ℕ) → j.state ≡ crashed → j.pending_restart ≡ some d → Settled j

decided :
    (p : RestartPolicy) (reason : ExitReason) (now : ℕ) (i : Instance)
    → i.state ≡ crashed
    → ((decide p reason now (goes_on i)).process ≡ none) × Settled (decide p reason now (goes_on i))
unfolding decide
decided p reason now i crash =
    by_decision (should_restart p reason (record_exit p now i).restart_timestamps now)
  where
    by_decision :
        (d : RestartDecision)
        → ((apply_decision d (record_exit p now i)).process ≡ none)
          × Settled (apply_decision d (record_exit p now i))
    by_decision (RestartDecision.stop r) = (refl, is_down refl)
    by_decision (circuit_break n) = (refl, is_cut_off refl)
    by_decision (restart d) = (refl, awaits_restart d crash refl)

pub note_exit-cases :
    (reason : ExitReason) (i : Instance)
    → is_idle i.state ≡ false
    → (note_exit i.state reason i ≡ ok (left (record i { state = dead; process = none })))
      ⊎ (note_exit i.state reason i ≡ ok (goes_on (record i { state = crashed })))
unfolding note_exit apply_transition
note_exit-cases reason i started = ground arith

-- An exit of a started process never makes the handler raise. Afterwards the instance holds no
-- process, and is down, cut off by the circuit breaker, or crashed with a restart scheduled.
pub handle_process_exit-Settled :
    (p : RestartPolicy) (reason : ExitReason) (now : ℕ) (i : Instance)
    → is_idle i.state ≡ false
    → (j : Instance) × (handle_process_exit p reason now i ≡ ok j) × (j.process ≡ none) × Settled j
handle_process_exit-Settled p reason now i started = elim (note_exit-cases reason i started) [
  | inl e ↦ (
    record i { state = dead; process = none },
    unfold handle_process_exit in rw e,
    refl,
    is_down refl,
  )
  | inr e ↦
      let (free, settled) = decided p reason now (record i { state = crashed }) refl in
      (
        decide p reason now (goes_on (record i { state = crashed })),
        unfold handle_process_exit in rw e,
        free,
        settled,
      )
]

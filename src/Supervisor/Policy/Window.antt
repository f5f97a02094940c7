-- ===== src/Supervisor/Policy/Window.antt =====
-- What the restart policy decides (src/prow/connector/restart_policy.py).
use prow_cti.Prelude.{
  List, arith, filter, filter-filter, length, refl, suc, zero, ℕ, ◌*◌, ◌≡◌, ◌≤◌, ◌⊎◌,
}
use prow_cti.Supervisor.Policy.{
  RestartPolicy, backoff, default_policy, in_window, restart, second, should_restart,
  trim_restart_timestamps,
}
use prow_cti.Supervisor.Process.{ExitReason}

module _ (p : RestartPolicy) (reason : ExitReason) (now : ℕ) where
  -- Trimming the history by the policy's own window, at the time of the decision or at any time
  -- before it, does not change the decision.
  pub should_restart-trim :
      (timestamps : List ℕ) (earlier : ℕ)
      → earlier ≤ now
      → should_restart p reason (trim_restart_timestamps timestamps earlier p.window_duration) now
        ≡ should_restart p reason timestamps now
  unfolding should_restart trim_restart_timestamps
  should_restart-trim timestamps earlier h = rw (
      filter-filter (in_window p.window_duration earlier) (in_window p.window_duration now)
        timestamps (λ t g. ground arith))

-- With the default policy a restart waits for one second or for two, and no longer: the window is full
-- before a later delay of the schedule is reached.
should_restart-default_delay :
    (reason : ExitReason) (timestamps : List ℕ) (now d : ℕ)
    → should_restart default_policy reason timestamps now ≡ restart d
    → (d ≡ 1 * second) ⊎ (d ≡ 2 * second)
unfolding should_restart backoff
should_restart-default_delay reason timestamps now d h =
    by_recent (length (filter (in_window default_policy.window_duration now) timestamps)) refl
  where
    by_recent :
        (n : ℕ)
        → length (filter (in_window default_policy.window_duration now) timestamps) ≡ n
        → (d ≡ 1 * second) ⊎ (d ≡ 2 * second)
    by_recent zero e = ground arith
    by_recent (suc zero) e = ground arith
    by_recent (suc (suc zero)) e = ground arith
    by_recent (suc (suc (suc n))) e = ground arith

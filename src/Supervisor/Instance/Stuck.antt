-- ===== src/Supervisor/Instance/Stuck.antt =====
-- Two ways in which a shutdown leaves an instance in a state that no task moves it out of
-- (src/prow/connector/instance.py).
use prow_cti.Prelude.{
  Bool, List, [], arith, false, none, refl, some, suc, true, zero, ℕ, ◌∙◌, ◌∷◌, ◌≡◌,
}
use prow_cti.Supervisor.Instance.{
  Instance, apply_decision, decide, handle_process_exit, is_graceful, note_exit, record_exit,
  request_shutdown, run_fetch, spawn_finish, wait_until_idle, wake,
}
use prow_cti.Supervisor.Policy.{RestartPolicy, restart, should_restart}
use prow_cti.Supervisor.Process.{ExitReason}
use prow_cti.Supervisor.State.{
  ConnectorState, apply_transition, crashed, dead, draining, invalid_transition, is_idle, ok,
  starting, transition_suppressed,
}
use prow_cti.Transport.Pending.{settle}

abbrev pub replicate {ℓ} : {A : Type ℓ} → ℕ → A → List A
replicate zero a = []
replicate (suc n) a = a ∷ replicate n a

-- `wait_until_idle` with no deadline, polling a state that does not change and is not idle, waits on.
waits_on :
    (n : ℕ) (s : ConnectorState)
    → is_idle s ≡ false
    → wait_until_idle (replicate n (s, false)) ≡ none
unfolding wait_until_idle
waits_on zero s h = refl
waits_on (suc n) s h = ground (arith, waits_on n s h)

run_fetch-crashed :
    (settle : Instance → Instance) (i : Instance)
    → i.state ≡ crashed
    → run_fetch settle i ≡ ok (i, false)
unfolding run_fetch
run_fetch-crashed settle i h = ground arith

wake-stopped : (i : Instance) → i.shutdown_requested ≡ true → wake i ≡ (i, false)
unfolding wake
wake-stopped i h = ground arith

drain_decision :
    (p : RestartPolicy) (reason : ExitReason) (now : ℕ) (i : Instance)
    → i.state ≡ draining
    → is_graceful reason ≡ false
    → (d : ℕ) × (should_restart p reason (record_exit p now i).restart_timestamps now ≡ restart d)
    → (j : Instance) × (handle_process_exit p reason now i ≡ ok j)
      × (j.state ≡ crashed)
      × (j.shutdown_requested ≡ i.shutdown_requested)
unfolding handle_process_exit note_exit decide apply_decision apply_transition record_exit
drain_decision p reason now i s g (d, h) =
    let crash = record i { state = crashed } in
    let recorded = record_exit p now crash in
    (record recorded { process = none; pending_restart = some d }, ground arith, refl, refl)

shutdown-crashed : (i : Instance) → i.state ≡ crashed → (request_shutdown i).0.state ≡ dead
unfolding request_shutdown apply_transition transition_suppressed
shutdown-crashed i h = ground arith

-- A process that crashes or is killed while it drains after a shutdown was requested, with a restart
-- granted by the policy, leaves the instance crashed: the restart timer does nothing because a
-- shutdown was requested, a fetch cycle starts nothing, and waiting for it to be idle without a
-- deadline is not over after any number of polls that find this state. A further request to shut down
-- would take it to dead.
pub drain_crash_stuck :
    (p : RestartPolicy) (reason : ExitReason) (now : ℕ) (i : Instance)
    → i.state ≡ draining
    → i.shutdown_requested ≡ true
    → is_graceful reason ≡ false
    → ((d : ℕ) × (should_restart p reason (record_exit p now i).restart_timestamps now ≡ restart d))
    → (j : Instance) × (handle_process_exit p reason now i ≡ ok j)
      × (j.state ≡ crashed)
      × (wake j ≡ (j, false))
      × ((settle : Instance → Instance) → run_fetch settle j ≡ ok (j, false))
      × ((n : ℕ) → wait_until_idle (replicate n (j.state, false)) ≡ none)
      × ((request_shutdown j).0.state ≡ dead)
drain_crash_stuck p reason now i s r g granted =
    let (j, handled, crash, kept) = drain_decision p reason now i s g granted in
    (
      j,
      handled,
      crash,
      wake-stopped j (kept ∙ r),
      λ settle. run_fetch-crashed settle j crash,
      λ n. waits_on n j.state (rw crash),
      shutdown-crashed j crash,
    )

-- A shutdown that is requested while the process is starting makes the start fail with
-- `InvalidStateTransitionError`, whether or not the hello succeeds, so that no watcher is set up: the
-- instance is left draining, later fetch cycles start nothing unless another task ends the drain, and
-- waiting for it to be idle never ends.
pub start_shutdown_stuck :
    (i : Instance) (process : ℕ) (up : Bool)
    → i.state ≡ starting
    → let j = (request_shutdown i).0 in
      (spawn_finish process up j ≡ invalid_transition)
      × (j.state ≡ draining)
      × (j.watcher ≡ i.watcher)
      × (run_fetch (λ k. k) j ≡ ok ((request_shutdown j).0, false))
      × ((request_shutdown j).0.state ≡ draining)
      × ((n : ℕ) → wait_until_idle (replicate n (j.state, false)) ≡ none)
unfolding request_shutdown spawn_finish apply_transition transition_suppressed run_fetch
start_shutdown_stuck i process up h = (
  ground arith,
  ground arith,
  ground arith,
  ground arith,
  ground arith,
  λ n. waits_on n (request_shutdown i).0.state (ground arith),
)

-- ===== src/Supervisor/Instance/Tests.antt =====
-- Concrete runs of an instance (src/prow/connector/instance.py).
use prow_cti.Prelude.{[], arith, false, filter, none, refl, some, true, ℕ, ◌<◌, ◌∷◌, ◌≡◌, ◌≤◌, ◌⊎◌}
use prow_cti.Supervisor.Instance.{
  Instance, apply_decision, handle_process_exit, new_instance, note_exit, record_exit,
  request_shutdown, run_fetch, spawn_begin, spawn_finish, start, wait_until_idle, wake,
}
use prow_cti.Supervisor.Instance.History.{
  Reach, World, begin, exit_seen, next, spawned, spawning, started,
}
use prow_cti.Supervisor.Instance.History.Breaker.{handle_process_exit-breaker, recent_exits}
use prow_cti.Supervisor.Instance.Shutdown.{Later, at_once, later}
use prow_cti.Supervisor.Instance.Stuck.{drain_crash_stuck, replicate, start_shutdown_stuck}
use prow_cti.Supervisor.Policy.{
  backoff, default_policy, restart, should_restart, trim_restart_timestamps,
}
use prow_cti.Supervisor.Process.{ExitReason, graceful_shutdown}
use prow_cti.Supervisor.State.{
  apply_transition, circuit_broken, crashed, dead, draining, invalid_transition, ok, ready,
  starting, transition_suppressed,
}

abbrev starting_instance : Instance
starting_instance = record new_instance { state = starting }

abbrev ready_instance : Instance
ready_instance = record new_instance { state = ready; process = some 7; watcher = some 7 }

abbrev world_of : Instance → World
world_of i = record { inst = i; history = []; latest = 0 }

ready_world-Reach : Reach default_policy (world_of ready_instance)
unfolding start spawn_begin spawn_finish apply_transition
ready_world-Reach =
    next
      (next (next begin (started (world_of new_instance) starting_instance refl))
        (spawning (world_of starting_instance) 7))
      (spawned (world_of (record starting_instance { process = some 7 })) 7 true ready_instance
        refl)

abbrev crashed_instance : Instance
crashed_instance = record {
  state = crashed;
  process = none;
  restart_timestamps = 5000000 ∷ [];
  last_restart_at = some 5000000;
  watcher = some 7;
  pending_restart = some 1000000;
  shutdown_requested = false;
}

ready-crashes :
    handle_process_exit default_policy ExitReason.crashed 5000000 ready_instance
    ≡ ok crashed_instance
unfolding handle_process_exit note_exit record_exit apply_decision should_restart
    trim_restart_timestamps filter backoff apply_transition
ready-crashes = refl

-- A first crash: one exit of the history, and a restart.
handle_process_exit-breaker_example :
    (crashed_instance.state ≡ dead)
    ⊎ (((crashed_instance.state ≡ circuit_broken) × (3 ≤ recent_exits default_policy 5000000 []))
        ⊎ ((d : ℕ) × (crashed_instance.state ≡ crashed)
            × (crashed_instance.pending_restart ≡ some d)
            × (recent_exits default_policy 5000000 [] < 3)))
handle_process_exit-breaker_example =
    handle_process_exit-breaker default_policy ExitReason.crashed 5000000 (world_of ready_instance)
      crashed_instance ready_world-Reach (omega arith) refl refl ready-crashes

-- A ready instance that is told to stop, and whose process then exits.
abbrev drained_instance : Instance
drained_instance = record ready_instance { state = dead; process = none; shutdown_requested = true }

stopped_world :
    Later default_policy
      (record (world_of ready_instance) { inst = (request_shutdown ready_instance).0 })
      (record { inst = drained_instance; history = []; latest = 9 })
unfolding request_shutdown handle_process_exit note_exit apply_transition transition_suppressed
stopped_world =
    later at_once
      (exit_seen (world_of (request_shutdown ready_instance).0) graceful_shutdown 9 drained_instance
        (omega arith) refl)
      refl

abbrev draining_instance : Instance
draining_instance = record ready_instance { state = draining; shutdown_requested = true }

draining-restarts :
    (d : ℕ) × (should_restart default_policy ExitReason.timeout_killed
        (record_exit default_policy 9 draining_instance).restart_timestamps
        9
      ≡ restart d)
unfolding record_exit should_restart trim_restart_timestamps filter backoff
draining-restarts = (1000000, refl)

-- A child that is killed after its shutdown request timed out.
drain_crash_stuck_example :
    (j : Instance) × (handle_process_exit default_policy ExitReason.timeout_killed 9
        draining_instance
      ≡ ok j)
    × (j.state ≡ crashed)
    × (wake j ≡ (j, false))
    × ((settle : Instance → Instance) → run_fetch settle j ≡ ok (j, false))
    × ((n : ℕ) → wait_until_idle (replicate n (j.state, false)) ≡ none)
    × ((request_shutdown j).0.state ≡ dead)
drain_crash_stuck_example =
    drain_crash_stuck default_policy ExitReason.timeout_killed 9 draining_instance refl refl refl
      draining-restarts

start_shutdown_stuck_example :
    let j = (request_shutdown starting_instance).0 in
    (spawn_finish 7 true j ≡ invalid_transition)
    × (j.state ≡ draining)
    × (j.watcher ≡ none)
    × (run_fetch (λ k. k) j ≡ ok ((request_shutdown j).0, false))
    × ((request_shutdown j).0.state ≡ draining)
    × ((n : ℕ) → wait_until_idle (replicate n (j.state, false)) ≡ none)
start_shutdown_stuck_example = start_shutdown_stuck starting_instance 7 true refl

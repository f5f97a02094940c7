-- ===== src/Supervisor/Instance/History/Breaker.antt =====
-- The circuit breaker over the whole life of an instance (src/prow/connector/instance.py and
-- restart_policy.py).
use prow_cti.Prelude.{
  List, [], arith, false, filter, inl, inr, length, none, refl, some, ℕ, ◌++◌, ◌<◌, ◌∙◌, ◌∷◌, ◌≡◌,
  ◌≤◌, ◌⊎◌,
}
use prow_cti.Supervisor.Instance.{
  Instance, apply_decision, decide, goes_on, handle_process_exit, new_instance, note_exit, on_emit,
  record_exit, request_shutdown, restart_attempts_in_window, spawn_begin, wake,
}
use prow_cti.Supervisor.Instance.Exits.{
  Settled, awaits_restart, handle_process_exit-Settled, is_cut_off, is_down, note_exit-cases,
}
use prow_cti.Supervisor.Instance.History.{
  Reach, Step, TracksWorld, World, begin, cleared, counted, emitted, exit_seen, next,
  record_exit-Tracks, spawned, spawning, started, stopping, trim-agree, woken,
}
use prow_cti.Supervisor.Instance.History.Steps.{
  clear-timestamps, exit-Tracks, fresh, noted-Tracks, on_emit-timestamps, same_timestamps,
  shutdown-timestamps, spawn_finish-timestamps, start-timestamps, wake-timestamps,
}
use prow_cti.Supervisor.Policy.{RestartPolicy, in_window, should_restart}
use prow_cti.Supervisor.Process.{ExitReason}
use prow_cti.Supervisor.State.{circuit_broken, crashed, dead, is_idle, ok}
use mathlib.Core.Path.{subst}

Step-Tracks : (p : RestartPolicy) {v w : World} → Step p v w → TracksWorld p v → TracksWorld p w
Step-Tracks p (started w j h) t =
    same_timestamps p w.inst j w.history w.latest (start-timestamps w.inst j h) t
Step-Tracks p (spawning w n) t =
    same_timestamps p w.inst (spawn_begin n w.inst) w.history w.latest (unfold spawn_begin in refl)
      t
Step-Tracks p (spawned w n up j h) t =
    same_timestamps p w.inst j w.history w.latest (spawn_finish-timestamps n up w.inst j h) t
Step-Tracks p (emitted w) t =
    same_timestamps p w.inst (on_emit w.inst) w.history w.latest (on_emit-timestamps w.inst) t
Step-Tracks p (exit_seen w reason now j due h) t = exit-Tracks p reason now w due t j h
Step-Tracks p (woken w) t =
    same_timestamps p w.inst (wake w.inst).0 w.history w.latest (wake-timestamps w.inst) t
Step-Tracks p (stopping w) t = elim (shutdown-timestamps w) [
  | inl e ↦ rw e.1 (fresh p (request_shutdown w.inst).0 w.latest e.0)
  | inr e ↦ rw e.1 (same_timestamps p w.inst (request_shutdown w.inst).0 w.history w.latest e.0 t)
]
Step-Tracks p (cleared w j h) t = fresh p j w.latest (clear-timestamps w.inst j h)
Step-Tracks p (counted w now due) t = record {
  agree = λ later g.
      unfold restart_attempts_in_window in
      trim-agree p w.inst.restart_timestamps now later g ∙ t.agree later (omega arith);
}

Reach-Tracks : (p : RestartPolicy) {w : World} → Reach p w → TracksWorld p w
Reach-Tracks p begin = fresh p new_instance 0 refl
Reach-Tracks p (next r s) = Step-Tracks p s (Reach-Tracks p r)

-- The exits of the history in the window that ends now, with the one that is being handled. The
-- history has the exits of which the policy was asked since the instance last started afresh.
abbrev pub recent_exits : RestartPolicy → ℕ → List ℕ → ℕ
recent_exits p now history = length (filter (in_window p.window_duration now) (history ++ now ∷ []))

module _ (p : RestartPolicy) (reason : ExitReason) (now : ℕ) (w : World) (r : Reach p w)
    (due : w.latest ≤ now) where
  recorded-agree :
      (i : Instance)
      → note_exit w.inst.state reason w.inst ≡ ok (goes_on i)
      → filter (in_window p.window_duration now) (record_exit p now i).restart_timestamps
        ≡ filter (in_window p.window_duration now) (w.history ++ now ∷ [])
  recorded-agree i e =
      (record_exit-Tracks p i w.history w.latest now due
          (noted-Tracks p reason now w due (Reach-Tracks p r) (goes_on i) e)).agree
        now (omega arith)

  breaker_decides :
      (i j : Instance) (d : ℕ)
      → note_exit w.inst.state reason w.inst ≡ ok (goes_on i)
      → decide p reason now (goes_on i) ≡ j
      → i.pending_restart ≡ none
      → i.state ≡ crashed
      → (j.pending_restart ≡ some d → recent_exits p now w.history < p.max_restarts_in_window)
        × (j.state ≡ circuit_broken → p.max_restarts_in_window ≤ recent_exits p now w.history)
  unfolding decide should_restart apply_decision
  breaker_decides i j d e same idle' crash =
      (λ h. ground (arith, recorded-agree i e), λ h. ground (arith, recorded-agree i e))

-- A scheduled restart and an open circuit breaker each bound the number of recent exits.
handle_process_exit-bounds :
    (p : RestartPolicy) (reason : ExitReason) (now : ℕ) (w : World) (j : Instance)
    → Reach p w
    → w.latest ≤ now
    → is_idle w.inst.state ≡ false
    → w.inst.pending_restart ≡ none
    → handle_process_exit p reason now w.inst ≡ ok j
    → ((d : ℕ)
        → j.pending_restart ≡ some d
        → recent_exits p now w.history < p.max_restarts_in_window)
      × (j.state ≡ circuit_broken → p.max_restarts_in_window ≤ recent_exits p now w.history)
unfolding handle_process_exit
handle_process_exit-bounds p reason now w j r due live idle' h =
    elim (note_exit-cases reason w.inst live) [
      | inl e ↦
          let same : record w.inst { state = dead; process = none } ≡ j = ground (arith, e) in
          (λ d g. absurd (cc (same, idle')), λ g. absurd (cc same))
      | inr e ↦
          let crash = record w.inst { state = crashed } in
          let same : decide p reason now (goes_on crash) ≡ j = ground (arith, e) in
          (
            λ d. (breaker_decides p reason now w r due crash j d e same idle' refl).0,
            (breaker_decides p reason now w r due crash j 0 e same idle' refl).1,
          )
    ]

-- In every reachable state the exit of a started process with no restart pending leaves the instance
-- down; or cut off by the circuit breaker, and then at least `max_restarts_in_window` exits, this one
-- included, lie in the window; or crashed with a restart scheduled, and then fewer do. The exits that
-- are counted are those of which the policy was asked (a graceful one of a process that was up or
-- draining is not) since the instance last started afresh: since the breaker was last cleared, the
-- policy last stopped the instance, or it was last shut down while it was crashed.
pub handle_process_exit-breaker :
    (p : RestartPolicy) (reason : ExitReason) (now : ℕ) (w : World) (j : Instance)
    → Reach p w
    → w.latest ≤ now
    → is_idle w.inst.state ≡ false
    → w.inst.pending_restart ≡ none
    → handle_process_exit p reason now w.inst ≡ ok j
    → (j.state ≡ dead)
      ⊎ (((j.state ≡ circuit_broken) × (p.max_restarts_in_window ≤ recent_exits p now w.history))
          ⊎ ((d : ℕ) × (j.state ≡ crashed)
              × (j.pending_restart ≡ some d)
              × (recent_exits p now w.history < p.max_restarts_in_window)))
handle_process_exit-breaker p reason now w j r due live idle' h =
    let (k, e, free, settled) = handle_process_exit-Settled p reason now w.inst live in
    let same : k ≡ j = ground (arith, e) in
    by_settled (subst Settled same settled)
      (handle_process_exit-bounds p reason now w j r due live idle' h)
  where
    by_settled :
        Settled j
        → ((d : ℕ)
            → j.pending_restart ≡ some d
            → recent_exits p now w.history < p.max_restarts_in_window)
          × (j.state ≡ circuit_broken → p.max_restarts_in_window ≤ recent_exits p now w.history)
        → (j.state ≡ dead)
          ⊎ (((j.state ≡ circuit_broken)
                × (p.max_restarts_in_window ≤ recent_exits p now w.history))
              ⊎ ((d : ℕ) × (j.state ≡ crashed)
                  × (j.pending_restart ≡ some d)
                  × (recent_exits p now w.history < p.max_restarts_in_window)))
    by_settled (is_down e) b = inl e
    by_settled (is_cut_off e) b = inr (inl (e, b.1 e))
    by_settled (awaits_restart d e f) b = inr (inr (d, e, f, b.0 d f))

-- ===== src/Supervisor/Instance/History/Steps.antt =====
-- What each step does to the list of timestamps (src/prow/connector/instance.py).
use prow_cti.Prelude.{Bool, List, [], ap, arith, refl, sym, ℕ, ◌++◌, ◌∷◌, ◌≡◌, ◌≤◌, ◌⊎◌}
use prow_cti.Supervisor.Instance.{
  Instance, Noted, apply_decision, clear_circuit_break, decide, goes_on, handle_process_exit, left,
  note_exit, on_emit, record_exit, request_shutdown, spawn_finish, start, wake,
}
use prow_cti.Supervisor.Instance.History.{
  Tracks, TracksWorld, World, history_after, history_from, noted_history, record_exit-Tracks,
  shutdown_history,
}
use prow_cti.Supervisor.Policy.{
  RestartDecision, RestartPolicy, circuit_break, restart, should_restart,
}
use prow_cti.Supervisor.Process.{ExitReason}
use prow_cti.Supervisor.State.{ConnectorState, Transition, draining, invalid_transition, ok}
use mathlib.Core.Path.{subst₂}

-- Steps that leave the list alone.
pub same_timestamps :
    (p : RestartPolicy) (i j : Instance) (history : List ℕ) (latest : ℕ)
    → j.restart_timestamps ≡ i.restart_timestamps
    → Tracks p i history latest
    → Tracks p j history latest
same_timestamps p i j history latest e t = record { agree = λ now h. rw e (t.agree now h) }

pub fresh :
    (p : RestartPolicy) (i : Instance) (latest : ℕ)
    → i.restart_timestamps ≡ []
    → Tracks p i [] latest
fresh p i latest e = record { agree = λ now h. rw e }

pub start-timestamps :
    (i j : Instance) → start i ≡ ok j → j.restart_timestamps ≡ i.restart_timestamps
unfolding start
start-timestamps i j h = ground arith

pub spawn_finish-timestamps :
    (n : ℕ) (up : Bool) (i j : Instance)
    → spawn_finish n up i ≡ ok j
    → j.restart_timestamps ≡ i.restart_timestamps
unfolding spawn_finish
spawn_finish-timestamps n up i j h = ground arith

pub on_emit-timestamps : (i : Instance) → (on_emit i).restart_timestamps ≡ i.restart_timestamps
unfolding on_emit
on_emit-timestamps i = ground arith

pub wake-timestamps : (i : Instance) → (wake i).0.restart_timestamps ≡ i.restart_timestamps
unfolding wake
wake-timestamps i = ground arith

pub clear-timestamps : (i j : Instance) → clear_circuit_break i ≡ ok j → j.restart_timestamps ≡ []
unfolding clear_circuit_break
clear-timestamps i j h = ground arith

pub shutdown-timestamps :
    (w : World)
    → ((request_shutdown w.inst).0.restart_timestamps ≡ [] × shutdown_history w ≡ [])
      ⊎ ((request_shutdown w.inst).0.restart_timestamps ≡ w.inst.restart_timestamps
          × shutdown_history w ≡ w.history)
unfolding request_shutdown
shutdown-timestamps w = ground arith

abbrev pub noted_instance : Noted → Instance
noted_instance (left i) = i
noted_instance (goes_on i) = i

note_exit-timestamps :
    (s : ConnectorState) (reason : ExitReason) (i : Instance) (n : Noted)
    → note_exit s reason i ≡ ok n
    → (noted_instance n).restart_timestamps ≡ i.restart_timestamps
unfolding note_exit
note_exit-timestamps draining reason i n h = ground arith
note_exit-timestamps _ reason i n h = ground arith

later-Tracks :
    (p : RestartPolicy) (i : Instance) (history : List ℕ) (latest now : ℕ)
    → latest ≤ now
    → Tracks p i history latest
    → Tracks p i history now
later-Tracks p i history latest now h t = record { agree = λ m g. t.agree m (omega arith) }

module _ (p : RestartPolicy) (reason : ExitReason) (now : ℕ) (w : World) (due : w.latest ≤ now)
    (t : TracksWorld p w) where
  pub noted-Tracks :
      (n : Noted)
      → note_exit w.inst.state reason w.inst ≡ ok n
      → Tracks p (noted_instance n) w.history w.latest
  noted-Tracks n e =
      same_timestamps p w.inst (noted_instance n) w.history w.latest
        (note_exit-timestamps w.inst.state reason w.inst n e) t

  decide-Tracks :
      (n : Noted)
      → note_exit w.inst.state reason w.inst ≡ ok n
      → Tracks p (decide p reason now n) (noted_history p reason now w.history n) now
  unfolding decide
  decide-Tracks (left i) e = later-Tracks p i w.history w.latest now due (noted-Tracks (left i) e)
  decide-Tracks (goes_on i) e =
      let recorded =
        record_exit-Tracks p i w.history w.latest now due (noted-Tracks (goes_on i) e) in
      by_decision (should_restart p reason (record_exit p now i).restart_timestamps now) recorded
    where
      by_decision :
          (d : RestartDecision)
          → Tracks p (record_exit p now i) (w.history ++ now ∷ []) now
          → Tracks p
              (apply_decision d (record_exit p now i))
              (elim d [ RestartDecision.stop r ↦ [] | _ ↦ w.history ++ now ∷ [] ])
              now
      by_decision (RestartDecision.stop r) g = fresh p _ now refl
      by_decision (circuit_break m) g =
          same_timestamps p (record_exit p now i) _ (w.history ++ now ∷ []) now refl g
      by_decision (restart m) g =
          same_timestamps p (record_exit p now i) _ (w.history ++ now ∷ []) now refl g

  pub exit-Tracks :
      (j : Instance)
      → handle_process_exit p reason now w.inst ≡ ok j
      → Tracks p j (history_after p reason now w) now
  unfolding handle_process_exit
  exit-Tracks j h = by_note (note_exit w.inst.state reason w.inst) refl
    where
      by_note :
          (n : Transition Noted)
          → note_exit w.inst.state reason w.inst ≡ n
          → Tracks p j (history_after p reason now w) now
      by_note (ok n) e =
          let same : decide p reason now n ≡ j = ground arith in
          subst₂ (λ i history. Tracks p i history now) same
            (sym (ap (history_from p reason now w.history) e)) (decide-Tracks n e)
      by_note invalid_transition e = cc

-- ===== src/Supervisor/Instance/History.antt =====
-- The bounded list of restart timestamps against the whole history of exits
-- (src/prow/connector/instance.py and restart_policy.py).
use prow_cti.Prelude.{
  Bool, List, [], arith, filter, filter-append, filter-filter, true, ℕ, ◌++◌, ◌∷◌, ◌≡◌, ◌≤◌,
}
use prow_cti.Supervisor.Instance.{
  Instance, Noted, clear_circuit_break, goes_on, handle_process_exit, left, new_instance, note_exit,
  on_emit, record_exit, request_shutdown, restart_attempts_in_window, spawn_begin, spawn_finish,
  start, wake,
}
use prow_cti.Supervisor.Policy.{
  RestartDecision, RestartPolicy, in_window, should_restart, stop, trim_restart_timestamps,
}
use prow_cti.Supervisor.Process.{ExitReason}
use prow_cti.Supervisor.State.{Transition, crashed, invalid_transition, ok}
pub mod Steps
pub mod Breaker
use mathlib.Core.Path.{subst₂}

-- The list that the instance keeps decides like `history` at any time from `latest` on.
pub record Tracks (p : RestartPolicy) (i : Instance) (history : List ℕ) (latest : ℕ) : Type 0 where
  pub agree :
      (now : ℕ)
      → latest ≤ now
      → filter (in_window p.window_duration now) i.restart_timestamps
        ≡ filter (in_window p.window_duration now) history

module _ (p : RestartPolicy) where
  -- A time in the window of a later moment is in the window of an earlier one.
  pub window_mono :
      (earlier now t : ℕ)
      → earlier ≤ now
      → in_window p.window_duration now t ≡ true
      → in_window p.window_duration earlier t ≡ true
  window_mono earlier now t h g = ground arith

  pub trim-agree :
      (ts : List ℕ) (earlier now : ℕ)
      → earlier ≤ now
      → filter
          (in_window p.window_duration now)
          (trim_restart_timestamps ts earlier p.window_duration)
        ≡ filter (in_window p.window_duration now) ts
  unfolding trim_restart_timestamps
  trim-agree ts earlier now h =
      filter-filter (in_window p.window_duration earlier) (in_window p.window_duration now) ts
        (λ t. window_mono earlier now t h)

  pub record_exit-Tracks :
      (i : Instance) (history : List ℕ) (latest now : ℕ)
      → latest ≤ now
      → Tracks p i history latest
      → Tracks p (record_exit p now i) (history ++ now ∷ []) now
  unfolding record_exit
  record_exit-Tracks i history latest now h t = record {
    agree = λ later g. rw (
      trim-agree (trim_restart_timestamps i.restart_timestamps now p.window_duration ++ now ∷ [])
          now later g,
      filter-append (in_window p.window_duration later)
          (trim_restart_timestamps i.restart_timestamps now p.window_duration) (now ∷ []),
      filter-append (in_window p.window_duration later) history (now ∷ []),
      trim-agree i.restart_timestamps now later g,
      t.agree later (omega arith),
    );
  }

-- An instance in the course of time. `history` is what the code does not keep: the times of all
-- exits that counted against the policy since it last started afresh.
pub record World : Type 0 where
  pub inst : Instance
  pub history : List ℕ
  pub latest : ℕ

abbrev pub noted_history : RestartPolicy → ExitReason → ℕ → List ℕ → Noted → List ℕ
noted_history p reason now history (left i) = history
noted_history p reason now history (goes_on i) =
    elim (should_restart p reason (record_exit p now i).restart_timestamps now) [
      | RestartDecision.stop r ↦ []
      | _ ↦ history ++ now ∷ []
    ]

abbrev pub history_from : RestartPolicy → ExitReason → ℕ → List ℕ → Transition Noted → List ℕ
history_from p reason now history (ok noted) = noted_history p reason now history noted
history_from p reason now history invalid_transition = history

-- A stop starts the history afresh, and an exit that no restart policy sees adds nothing.
abbrev pub history_after : RestartPolicy → ExitReason → ℕ → World → List ℕ
history_after p reason now w =
    history_from p reason now w.history (note_exit w.inst.state reason w.inst)

abbrev pub shutdown_history : World → List ℕ
shutdown_history w = elim w.inst.state [ crashed ↦ [] | _ ↦ w.history ]

-- Everything that can happen to an instance, in any order.
pub data Step (p : RestartPolicy) : World → World → Type 0 where
  started : (w : World) (j : Instance) → start w.inst ≡ ok j → Step p w (record w { inst = j })
  spawning : (w : World) (n : ℕ) → Step p w (record w { inst = spawn_begin n w.inst })
  spawned :
      (w : World) (n : ℕ) (up : Bool) (j : Instance)
      → spawn_finish n up w.inst ≡ ok j
      → Step p w (record w { inst = j })
  emitted : (w : World) → Step p w (record w { inst = on_emit w.inst })
  exit_seen :
      (w : World) (reason : ExitReason) (now : ℕ) (j : Instance)
      → w.latest ≤ now
      → handle_process_exit p reason now w.inst ≡ ok j
      → Step p w (record { inst = j; history = history_after p reason now w; latest = now })
  woken : (w : World) → Step p w (record w { inst = (wake w.inst).0 })
  stopping :
      (w : World)
      → Step p w (record w { inst = (request_shutdown w.inst).0; history = shutdown_history w })
  cleared :
      (w : World) (j : Instance)
      → clear_circuit_break w.inst ≡ ok j
      → Step p w (record w { inst = j; history = [] })
  counted :
      (w : World) (now : ℕ)
      → w.latest ≤ now
      → Step p w (record w { inst = (restart_attempts_in_window p now w.inst).0; latest = now })

abbrev pub initial : World
initial = record { inst = new_instance; history = []; latest = 0 }

pub data Reach (p : RestartPolicy) : World → Type 0 where
  begin : Reach p initial
  next : {v w : World} → Reach p v → Step p v w → Reach p w

abbrev pub TracksWorld : RestartPolicy → World → Type 0
TracksWorld p w = Tracks p w.inst w.history w.latest

-- ===== src/Supervisor/Instance/Shutdown.antt =====
-- What holds after a shutdown was requested (src/prow/connector/instance.py).
use prow_cti.Prelude.{Bool, arith, false, refl, true, ℕ, ◌≡◌, ◌≢◌}
use prow_cti.Supervisor.Instance.{
  Instance, Noted, apply_decision, decide, goes_on, handle_process_exit, left, note_exit, on_emit,
  record_exit, request_shutdown, restart_attempts_in_window, spawn_begin, spawn_finish, wake,
}
use prow_cti.Supervisor.Instance.History.{
  Step, World, cleared, counted, emitted, exit_seen, spawned, spawning, started, stopping, woken,
}
use prow_cti.Supervisor.Instance.History.Steps.{noted_instance}
use prow_cti.Supervisor.Policy.{RestartDecision, RestartPolicy, should_restart}
use prow_cti.Supervisor.Process.{ExitReason}
use prow_cti.Supervisor.State.{
  Transition, apply_transition, invalid_transition, ok, starting, transition_suppressed,
}
use mathlib.Core.Path.{subst}

-- The steps that happen by themselves: a start and clearing the circuit breaker are not among them.
abbrev pub automatic : {p : RestartPolicy} {v w : World} → Step p v w → Bool
automatic (started w j h) = false
automatic (cleared w j h) = false
automatic _ = true

-- One world after another by automatic steps.
pub data Later (p : RestartPolicy) (v : World) : World → Type 0 where
  at_once : Later p v v
  later : {u w : World} → Later p v u → (s : Step p u w) → automatic s ≡ true → Later p v w

abbrev pub IsStopped : Instance → Type 0
IsStopped i = (i.shutdown_requested ≡ true) × (i.state ≢ starting)

spawn_finish-IsStopped :
    (n : ℕ) (up : Bool) (i j : Instance) → spawn_finish n up i ≡ ok j → IsStopped i → IsStopped j
unfolding spawn_finish apply_transition
spawn_finish-IsStopped n up i j h s = ground arith

on_emit-IsStopped : (i : Instance) → IsStopped i → IsStopped (on_emit i)
unfolding on_emit transition_suppressed
on_emit-IsStopped i s = ground arith

pub wake-IsStopped : (i : Instance) → IsStopped i → (IsStopped (wake i).0) × ((wake i).1 ≡ false)
unfolding wake
wake-IsStopped i s = ground arith

request_shutdown-IsStopped : (i : Instance) → IsStopped i → IsStopped (request_shutdown i).0
unfolding request_shutdown transition_suppressed
request_shutdown-IsStopped i s = ground arith

apply_decision-IsStopped :
    (d : RestartDecision) (i : Instance) → IsStopped i → IsStopped (apply_decision d i)
unfolding apply_decision
apply_decision-IsStopped d i s = ground arith

note_exit-IsStopped :
    (reason : ExitReason) (i : Instance) (n : Noted)
    → note_exit i.state reason i ≡ ok n
    → IsStopped i
    → IsStopped (noted_instance n)
unfolding note_exit apply_transition
note_exit-IsStopped reason i n h s = ground arith

decide-IsStopped :
    (p : RestartPolicy) (reason : ExitReason) (now : ℕ) (n : Noted)
    → IsStopped (noted_instance n)
    → IsStopped (decide p reason now n)
unfolding decide
decide-IsStopped p reason now (left i) s = s
decide-IsStopped p reason now (goes_on i) s =
    let j = record_exit p now i in
    apply_decision-IsStopped (should_restart p reason j.restart_timestamps now) j
      (unfold record_exit in s)

handle_process_exit-IsStopped :
    (p : RestartPolicy) (reason : ExitReason) (now : ℕ) (i j : Instance)
    → handle_process_exit p reason now i ≡ ok j
    → IsStopped i
    → IsStopped j
unfolding handle_process_exit
handle_process_exit-IsStopped p reason now i j h s = by_note (note_exit i.state reason i) refl
  where
    by_note : (n : Transition Noted) → note_exit i.state reason i ≡ n → IsStopped j
    by_note (ok n) e =
        let result : decide p reason now n ≡ j = ground (arith, e) in
        subst IsStopped result
          (decide-IsStopped p reason now n (note_exit-IsStopped reason i n e s))
    by_note invalid_transition e = cc (h, e)

pub Step-IsStopped :
    (p : RestartPolicy) {v w : World} (s : Step p v w)
    → automatic s ≡ true
    → IsStopped v.inst
    → IsStopped w.inst
Step-IsStopped p (started w j h) a k = cc
Step-IsStopped p (cleared w j h) a k = cc
Step-IsStopped p (spawning w n) a k = unfold spawn_begin in k
Step-IsStopped p (spawned w n up j h) a k = spawn_finish-IsStopped n up w.inst j h k
Step-IsStopped p (emitted w) a k = on_emit-IsStopped w.inst k
Step-IsStopped p (exit_seen w reason now j due h) a k =
    handle_process_exit-IsStopped p reason now w.inst j h k
Step-IsStopped p (woken w) a k = (wake-IsStopped w.inst k).0
Step-IsStopped p (stopping w) a k = request_shutdown-IsStopped w.inst k
Step-IsStopped p (counted w now due) a k = unfold restart_attempts_in_window in k

Later-IsStopped :
    (p : RestartPolicy) {v w : World} → Later p v w → IsStopped v.inst → IsStopped w.inst
Later-IsStopped p at_once k = k
Later-IsStopped p (later before s a) k = Step-IsStopped p s a (Later-IsStopped p before k)

pub request_shutdown-stops : (i : Instance) → IsStopped (request_shutdown i).0
unfolding request_shutdown transition_suppressed
request_shutdown-stops i = ground arith

-- After a shutdown request no restart takes place: whatever exits, probes, timers and messages
-- follow, the instance is never starting and a restart timer that goes off spawns nothing, until the
-- instance is started again or its circuit breaker is cleared.
request_shutdown-no_restart :
    (p : RestartPolicy) (v w : World)
    → Later p (record v { inst = (request_shutdown v.inst).0 }) w
    → (w.inst.state ≢ starting) × ((wake w.inst).1 ≡ false)
request_shutdown-no_restart p v w l =
    let stopped = Later-IsStopped p l (request_shutdown-stops v.inst) in
    (stopped.1, (wake-IsStopped w.inst stopped).1)

-- ===== src/Supervisor/Process/Exit.antt =====
-- The life of one subprocess, from its start to the reason that `wait` returns
-- (src/prow/connector/process.py).
use prow_cti.Prelude.{Bool, List, [], arith, false, refl, true, ◌&&◌, ◌||◌, ◌↔◌, ◌∷◌, ◌≡◌, ◌≢◌, ◌⊎◌}
use prow_cti.Prelude.Int.{eqb_ℤ_iff, pos, ℤ}
use prow_cti.Supervisor.Process.{
  ConnectorProcess, Launch, ShutdownReply, graceful_shutdown, hello_failed, negotiated, new_process,
  process_of, request_shutdown, returned, start, subprocess_spawn_failed, terminate_abruptly,
  timed_out, wait,
}

-- What the supervisor may do with a process between its start and its exit.
pub data Call : Type 0 where
  shutdown_call : ShutdownReply → Call
  kill_call : Bool → Call

abbrev pub call : ConnectorProcess → Call → ConnectorProcess
call p (shutdown_call r) = process_of (request_shutdown p r)
call p (kill_call alive) = terminate_abruptly p alive

abbrev pub calls : ConnectorProcess → List Call → ConnectorProcess
calls p [] = p
calls p (c ∷ cs) = calls (call p c) cs

-- Some shutdown request ran into its timeout.
abbrev pub timed : List Call → Bool
timed [] = false
timed (shutdown_call timed_out ∷ cs) = true
timed (_ ∷ cs) = timed cs

-- The flags that decide the reason, after any calls on a process with a transport or without one.
record Flags (p q : ConnectorProcess) (timed_kill : Bool) : Type 0 where
  proc : q.has_proc ≡ p.has_proc
  transport : q.has_transport ≡ p.has_transport
  spawn : q.spawn_failed ≡ p.spawn_failed
  hello : q.hello_failed ≡ p.hello_failed
  kill : q.timeout_kill ≡ (p.timeout_kill || (p.has_proc && p.has_transport && timed_kill))

Flags-call : (p : ConnectorProcess) (c : Call) → Flags p (call p c) (timed (c ∷ []))
unfolding request_shutdown terminate_abruptly
Flags-call p (shutdown_call r) = ground arith
Flags-call p (kill_call alive) = ground arith

timed-cons : (c : Call) (cs : List Call) → timed (c ∷ cs) ≡ (timed (c ∷ []) || timed cs)
timed-cons (shutdown_call timed_out) cs = refl
timed-cons (shutdown_call _) cs = refl
timed-cons (kill_call b) cs = refl

Flags-calls : (p : ConnectorProcess) (cs : List Call) → Flags p (calls p cs) (timed cs)
Flags-calls p [] = ground arith
Flags-calls p (c ∷ cs) =
    let one = Flags-call p c in
    let more = Flags-calls (call p c) cs in rw (timed-cons c cs) (ground arith)

-- A process that was started and then called in any way is reported to have shut down gracefully
-- exactly when its hello succeeded, the peer broke no rule of the protocol, no shutdown request
-- timed out, and the exit code is 0.
wait-graceful_iff :
    (l : Launch) (p : ConnectorProcess) (cs : List Call) (code : ℤ) (fatal : Bool)
    → start new_process l ≡ returned p
    → ((wait (calls p cs) code fatal).1 ≡ graceful_shutdown)
      ↔ ((l ≡ negotiated) × (fatal ≡ false) × (timed cs ≡ false) × (code ≡ pos 0))
unfolding start wait
wait-graceful_iff l p cs code fatal h =
    let flags = Flags-calls p cs in
    let zero' = eqb_ℤ_iff code (pos 0) in (λ g. ground arith, λ g. ground arith)

-- A process whose spawn or hello failed keeps that reason, whatever is done to it and however it
-- exits.
pub wait-failed_start :
    (l : Launch) (p : ConnectorProcess) (cs : List Call) (code : ℤ) (fatal : Bool)
    → start new_process l ≡ returned p
    → l ≢ negotiated
    → ((wait (calls p cs) code fatal).1 ≡ subprocess_spawn_failed)
      ⊎ ((wait (calls p cs) code fatal).1 ≡ hello_failed)
unfolding start wait
wait-failed_start l p cs code fatal h n = let flags = Flags-calls p cs in ground arith

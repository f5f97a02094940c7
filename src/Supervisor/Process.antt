-- ===== src/Supervisor/Process.antt =====
-- One connector subprocess (src/prow/connector/process.py): its lifecycle flags, and how its exit
-- is classified. What the operating system and the peer answer is an argument of each operation.
use prow_cti.Prelude.{Bool, false, if◌then◌else◌, not, true, ◌&&◌, ◌||◌}
use prow_cti.Prelude.Int.{eqb_ℤ, pos, ℤ}
pub mod StderrRing
pub mod Exit

-- `ConnectorProcessState`
pub data ProcessState : Type 0 where
  not_started running draining exited : ProcessState

-- `ProcessExitReason`
pub data ExitReason : Type 0 where
  graceful_shutdown crashed timeout_killed protocol_error : ExitReason
  hello_failed subprocess_spawn_failed : ExitReason

-- `ConnectorProcess`: `transport` is there once the hello succeeded.
pub record ConnectorProcess : Type 0 where
  pub state : ProcessState
  pub has_proc : Bool
  pub has_transport : Bool
  pub timeout_kill : Bool
  pub spawn_failed : Bool
  pub hello_failed : Bool

-- `ConnectorProcess.__init__`
abbrev pub new_process : ConnectorProcess
new_process = record {
  state = not_started;
  has_proc = false;
  has_transport = false;
  timeout_kill = false;
  spawn_failed = false;
  hello_failed = false;
}

-- An operation returns, or raises with the object as it is then.
pub data Outcome : Type 0 where
  returned raised : ConnectorProcess → Outcome

abbrev pub process_of : Outcome → ConnectorProcess
process_of (returned p) = p
process_of (raised p) = p

-- What the start of a subprocess meets: `OSError` from the spawn, a missing pipe, a failed
-- negotiation (`ProtocolError` or `TimeoutError`), or an agreed protocol version.
pub data Launch : Type 0 where
  os_error missing_pipe negotiation_failed negotiated : Launch

launch : ConnectorProcess → Launch → Outcome
launch p os_error = returned (record p { spawn_failed = true; state = exited })
launch p missing_pipe = raised (record p { has_proc = true })
launch p negotiation_failed =
    returned (record p { has_proc = true; hello_failed = true; state = exited })
launch p negotiated = returned (record p { has_proc = true; has_transport = true; state = running })

-- `start`
unfoldable pub start : ConnectorProcess → Launch → Outcome
unfolding launch
start p l = elim p.state [ not_started ↦ launch p l | _ ↦ raised p ]

-- What a shutdown request meets: the acknowledgement, a timeout (the child is then terminated, and
-- killed if that does not end it), or another exception.
pub data ShutdownReply : Type 0 where
  acknowledged timed_out failed : ShutdownReply

shutdown_reply : ConnectorProcess → ShutdownReply → Outcome
shutdown_reply p acknowledged = returned p
shutdown_reply p timed_out = returned (record p { timeout_kill = true })
shutdown_reply p failed = raised p

-- `request_shutdown`
unfoldable pub request_shutdown : ConnectorProcess → ShutdownReply → Outcome
unfolding shutdown_reply
request_shutdown p r =
    if not p.has_transport || not p.has_proc
    then returned p
    else shutdown_reply (record p { state = draining }) r

-- `terminate_abruptly`: `alive` is false where the kill meets `ProcessLookupError`.
unfoldable pub terminate_abruptly : ConnectorProcess → Bool → ConnectorProcess
terminate_abruptly p alive = if p.has_proc && alive then record p { state = exited } else p

-- `wait`, given the exit code of the child and whether the dispatch loop has by then met a fatal
-- protocol error.
classify : ConnectorProcess → ℤ → Bool → ExitReason
classify p code fatal =
    if p.hello_failed
    then hello_failed
    else if p.has_transport && fatal
    then protocol_error
    else if p.timeout_kill
    then timeout_killed
    else if eqb_ℤ code (pos 0)
    then graceful_shutdown
    else crashed

unfoldable pub wait : ConnectorProcess → ℤ → Bool → ConnectorProcess × ExitReason
unfolding classify
wait p code fatal =
    if p.spawn_failed || not p.has_proc
    then (p, subprocess_spawn_failed)
    else (record p { state = exited }, classify p code fatal)

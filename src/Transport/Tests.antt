-- ===== src/Transport/Tests.antt =====
-- Concrete runs of the transport (src/prow/connector/runtime_transport.py and transport_stdio.py).
use prow_cti.Json.{end, field, null}
use prow_cti.Prelude.{
  List, Option, String, [], arith, false, if◌then◌else◌, none, refl, some, suc, true, zero, ℕ, ◌∷◌,
  ◌≡◌,
}
use prow_cti.Prelude.Dict.{insert, lookup}
use prow_cti.Prelude.Int.{negsuc, pos}
use prow_cti.Protocol.Messages.{Envelope}
use prow_cti.Transport.Pending.{Pending, no_requests, register, rejected}
use prow_cti.Transport.Pending.Delivery.{future, is_waiting}
use prow_cti.Transport.Pending.Reachable.{Reach, Step, begin, next, sent}
use prow_cti.Transport.Runtime.{Runtime, Services, dispatch_all, dispatch_loop}
use prow_cti.Transport.Runtime.Answers.Loop.{Handled, dispatch_all-Handled}
use prow_cti.Transport.Runtime.Closing.{dispatch_loop-requests, met}
use prow_cti.Transport.Stdio.{
  Peer, Stdio, acquire_slot, begin_operation, close_dispatch, end_operation, ensure_dispatch,
  new_stdio,
}
use prow_cti.Transport.Stdio.InFlight.{IsCounted, Reach-IsCounted, began}
use prow_cti.Transport.Stdio.Stranded.{
  IsStranded, begin_all, begin_operation-IsStranded, end_all, end_all-exceeds, no_step, then_ended,
}
use prow_cti.Transport.Pending.Reachable
use prow_cti.Transport.Stdio.InFlight

abbrev message : String → String → Option String → Envelope
message id kind id_ref = record {
  v = pos 1;
  id = id;
  kind = kind;
  payload = end;
  id_ref = id_ref;
  error = none;
}

-- Handlers that count their calls.
abbrev services : Services ℕ
services = record {
  emit_payload = some;
  set_state_payload = λ p. some ("key", null);
  get_state_payload = λ p. some "key";
  log_payload = some;
  metric_payload = some;
  dump_emit_ack = λ a. end;
  dump_get_state_ack = λ j. field "value" j end;
  emit_handler =
      λ bundle s. (suc s, some (record { accepted = 1; duplicates = 0; validation_failures = [] }));
  state_set_handler = λ key value s. (suc s, some tt);
  state_get_handler = λ key s. (suc s, some null);
  log_handler = λ p s. suc s;
  metric_handler = λ p s. suc s;
  new_message_id = λ s. "r";
  write_failure = λ env. none;
}

-- One request is on its way.
abbrev asked : Pending
asked = register "q" no_requests

asked-Reach : Reachable.Reach asked
asked-Reach = Reachable.Reach.next Reachable.Reach.begin (Reachable.Step.sent no_requests "q")

abbrev runtime : Runtime ℕ
runtime = record { services = 0; requests = asked; written = [] }

abbrev messages : List Envelope
messages =
    message "1" "emit" none
    ∷ message "2" "health-ack" (some "q")
    ∷ message "3" "get-state" none
    ∷ message "4" "nonsense" none
    ∷ message "5" "emit" none
    ∷ []

dispatch_all-Handled_example :
    Handled
      (pos 1)
      services
      messages
      none
      runtime
      (dispatch_all (pos 1) services messages none runtime)
dispatch_all-Handled_example = dispatch_all-Handled (pos 1) services messages none runtime

dispatch_loop-requests_example :
    let before =
      future "q"
        (dispatch_all
          (pos 1)
          services
          (message "9" "log" none ∷ [])
          none
          runtime).runtime.requests in
    let after =
      future "q"
        (dispatch_loop (pos 1) services (message "9" "log" none ∷ []) none runtime).0.requests in
    let e = (dispatch_loop (pos 1) services (message "9" "log" none ∷ []) none runtime).1 in
    (after ≡ (if is_waiting before then some (rejected (met (pos 1) services e)) else before))
    × (is_waiting after ≡ false)
dispatch_loop-requests_example =
    dispatch_loop-requests (pos 1) services (message "9" "log" none ∷ []) none runtime "q"
      asked-Reach

abbrev peer : Peer
peer = record {
  version = pos 1;
  new_message_id = λ s. "c";
  health_payload = λ s. end;
  shutdown_payload = end;
  write_failure = λ env. none;
}

abbrev one_open : Stdio
one_open = record new_stdio {
  requests = register "1" no_requests;
  in_flight = pos 1;
  dispatch_started = true;
  running = true;
}

one-begun : begin_operation "1" new_stdio ≡ some one_open
unfolding begin_operation acquire_slot ensure_dispatch
one-begun = refl

Reach-IsCounted_example : IsCounted (one_open, 1)
Reach-IsCounted_example = Reach-IsCounted {peer = peer} (
    InFlight.Reach.next InFlight.Reach.begin
      (InFlight.Step.began new_stdio one_open 0 "1" one-begun))

-- Sixty-five ids.
abbrev many : ℕ → List String
many zero = []
many (suc n) = "x" ∷ many n

end_all-exceeds_example :
    let t = end_all ("1" ∷ []) (close_dispatch none one_open) in
    (t.in_flight ≡ negsuc 0) × ((q : Stdio) × (begin_all (many 65) t ≡ some q))
end_all-exceeds_example = end_all-exceeds ("1" ∷ []) (many 65) none one_open (omega arith)

abbrev closed_stdio : Stdio
closed_stdio = record new_stdio { dispatch_started = true }

abbrev late : Stdio
late = record closed_stdio { requests = register "late" no_requests; in_flight = pos 1 }

late-begun : begin_operation "late" closed_stdio ≡ some late
unfolding begin_operation acquire_slot ensure_dispatch
late-begun = refl

begin_operation-IsStranded_example : IsStranded "late" (end_operation "other" late)
begin_operation-IsStranded_example =
    begin_operation-IsStranded "late" closed_stdio late (end_operation "other" late) refl refl
      late-begun (then_ended "other" (no_step late))

asked-waits : is_waiting (future "q" asked) ≡ true
unfolding register insert lookup
asked-waits = refl

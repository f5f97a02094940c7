-- ===== src/Transport/Pending.antt =====
-- Requests that wait for their acknowledgement (`_pending_runtime` and its methods in
-- src/prow/connector/runtime_transport.py). A future is named by the id of the message that it
-- waits for an answer to; the store of futures is what the waiting coroutines hold, and `pending` the
-- dictionary through which the dispatch loop finds them.
pub mod Reachable
use prow_cti.Prelude.{
  Bool, List, Option, String, [], false, if◌then◌else◌, map, none, some, true, ◌∷◌,
}
use prow_cti.Prelude.Dict.{Dict, insert, lookup, remove}
use prow_cti.Protocol.Codec.{ProtocolFailure}
use prow_cti.Protocol.Messages.{Envelope, ErrorBody, error}
pub mod Delivery

-- What a future is set to when it is not answered.
pub data Failure : Type 0 where
  peer_error : ErrorBody → Failure
  protocol_failure : ProtocolFailure → Failure
  process_exited : Failure

pub data Future : Type 0 where
  waiting : Future
  answered : Envelope → Future
  rejected : Failure → Future
  withdrawn : Future

pub record Pending : Type 0 where
  pub pending : Dict (Unit {0})
  pub futures : Dict Future

abbrev pub no_requests : Pending
no_requests = record { pending = []; futures = [] }

-- `_register_runtime_pending`
unfoldable pub register : String → Pending → Pending
register id p = record { pending = insert id tt p.pending; futures = insert id waiting p.futures }

-- `_pop_runtime_pending`: what is left, and whether the id was there.
abbrev is_there : Option (Unit {0}) → Bool
is_there (some _) = true
is_there none = false

unfoldable pub pop : String → Pending → Pending × Bool
pop id p = (record p { pending = remove id p.pending }, is_there (lookup id p.pending))

-- `fut.set_result` or `fut.set_exception`, unless the future is done.
abbrev settle_with : Future → Option Future → Option Future
settle_with f (some waiting) = some f
settle_with f _ = none

unfoldable pub settle : String → Future → Pending → Pending
settle id f p = elim (settle_with f (lookup id p.futures)) [
  | some g ↦ record p { futures = insert id g p.futures }
  | none ↦ p
]

abbrev pub answer : Envelope → Future
answer env = elim env.error [ some b ↦ rejected (peer_error b) | none ↦ answered env ]

-- `_resolve_runtime_ack`
unfoldable pub resolve : Envelope → Pending → Pending
unfolding pop settle
resolve env p = elim env.id_ref [
  | none ↦ p
  | some id ↦ let (q, found) = pop id p in if found then settle id (answer env) q else q
]

-- `_fail_runtime_pending`
unfoldable pub settle_all : List String → Future → Pending → Pending
settle_all [] f p = p
settle_all (id ∷ ids) f p = settle_all ids f (settle id f p)

unfoldable pub fail_pending : Failure → Pending → Pending
unfolding settle_all
fail_pending e p =
    settle_all (map (λ entry. entry.0) p.pending) (rejected e) (record p { pending = [] })

-- The end of a request by timeout: `pending.cancel()` for a future that is still there.
unfoldable pub withdraw : String → Pending → Pending
unfolding pop settle
withdraw id p = let (q, found) = pop id p in if found then settle id withdrawn q else q

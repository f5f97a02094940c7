-- ===== src/Protocol/Negotiation/Handshake.antt =====
-- The whole handshake, both sides together (src/prow/connector/protocol/negotiation.py).
use prow_cti.Json.{Fields, end}
use prow_cti.Prelude.{
  List, Option, Option-cases, String, [], arith, false, inl, inr, none, refl, some, true, ◌&&◌, ◌∷◌,
  ◌≡◌, ◌⊎◌,
}
use prow_cti.Prelude.Int.{ℤ, ◌≤ℤ◌}
use prow_cti.Protocol.Codec.{stream_closed}
use prow_cti.Protocol.Messages.{Envelope, HelloAckPayload, HelloPayload}
use prow_cti.Protocol.Negotiation.{
  IsSchemas, Negotiated, NegotiationError, Read, Schemas, advertised, agreed, connector_ack,
  connector_finish, contains, envelope, failed, highest_overlap, max_of, read_failed, read_one,
  received, runtime_finish, runtime_hello, unsupported, unsupported_body,
}
use prow_cti.Protocol.Negotiation.Agreement.{
  max_of-contains, max_of-some, not-contains, overlap-common, overlap-foreign, overlap-none,
  overlap-one, overlap-upper,
}

-- What the parties bring: their versions and the texts that the messages carry.
pub record Parties : Type 0 where
  pub runtime_versions : List ℤ
  pub connector_versions : List ℤ
  pub runtime_version : String
  pub connector_version : String
  pub config : Fields
  pub hello_id : String
  pub ack_id : String
  pub error_id : String

-- A side that raised closes the stream.
abbrev delivered : Negotiated Envelope → Read
delivered (agreed e) = received e
delivered (failed e) = read_failed stream_closed

abbrev written : Option Envelope → Read
written (some e) = received e
written none = read_failed stream_closed

abbrev ack_of : Negotiated (Option ℤ × HelloPayload × Envelope) → Negotiated Envelope
ack_of (agreed (common, p, ack)) = agreed ack
ack_of (failed e) = failed e

abbrev finish_of : Negotiated (Option ℤ × HelloPayload × Envelope) → Read → Negotiated (ℤ × Fields)
finish_of (agreed (common, p, ack)) r = connector_finish (common, p) r
finish_of (failed e) r = failed e

abbrev runtime_of :
    Negotiated Envelope → Negotiated ℤ × Option Envelope → Negotiated ℤ × Option Envelope
runtime_of (agreed hello) r = r
runtime_of (failed e) r = (failed e, none)

module _ (s : Schemas) (q : Parties) where
  abbrev hello : Negotiated Envelope
  hello = runtime_hello s q.runtime_versions q.hello_id q.runtime_version q.config

  abbrev ack : Negotiated (Option ℤ × HelloPayload × Envelope)
  ack = connector_ack s q.connector_versions q.ack_id q.connector_version (delivered hello)

  abbrev runtime_side : Negotiated ℤ × Option Envelope
  runtime_side =
      runtime_of hello (runtime_finish s q.runtime_versions q.error_id (delivered (ack_of ack)))

  -- What the runtime and the connector return or raise.
  unfoldable pub handshake : Negotiated ℤ × Negotiated (ℤ × Fields)
  handshake = (runtime_side.0, finish_of ack (written runtime_side.1))

abbrev pub refusal : NegotiationError
refusal = unsupported "Connector requested an unsupported protocol version."

module _ (s : Schemas) (lawful : IsSchemas s) (q : Parties) where
  abbrev hello_payload : HelloPayload
  hello_payload = record {
    runtime_version = q.runtime_version;
    supported_protocol_versions = q.runtime_versions;
    config = q.config;
  }

  abbrev hello_envelope : ℤ → Envelope
  hello_envelope m = envelope m q.hello_id "hello" (s.dump_hello hello_payload) none none

  hello-sent : (m : ℤ) → max_of q.runtime_versions ≡ some m → hello s q ≡ agreed (hello_envelope m)
  unfolding runtime_hello
  hello-sent m h = rw (h, runtime_hello)

  abbrev ack_payload : ℤ → HelloAckPayload
  ack_payload v = record { connector_version = q.connector_version; protocol_version = v }

  abbrev ack_envelope : ℤ → ℤ → Envelope
  ack_envelope m v =
      envelope m q.ack_id "hello-ack" (s.dump_ack (ack_payload v)) (some q.hello_id) none

  ack-sent :
      (m : ℤ) (common : Option ℤ) (v : ℤ)
      → highest_overlap q.runtime_versions q.connector_versions ≡ common
      → advertised common q.connector_versions ≡ some v
      → connector_ack s q.connector_versions q.ack_id q.connector_version
          (received (hello_envelope m))
        ≡ agreed (common, hello_payload, ack_envelope m v)
  unfolding connector_ack read_one
  ack-sent m common v h g = ground (arith, lawful.hello_reload hello_payload, h, g)

  runtime-agrees :
      (m v : ℤ)
      → highest_overlap q.runtime_versions (v ∷ []) ≡ some v
      → runtime_finish s q.runtime_versions q.error_id (received (ack_envelope m v))
        ≡ (agreed v, none)
  unfolding runtime_finish read_one
  runtime-agrees m v h = ground (arith, lawful.ack_reload (ack_payload v))

  runtime-refuses :
      (m v : ℤ)
      → max_of q.runtime_versions ≡ some m
      → highest_overlap q.runtime_versions (v ∷ []) ≡ none
      → runtime_finish s q.runtime_versions q.error_id (received (ack_envelope m v)) ≡ (
        failed refusal,
        some (envelope m q.error_id "hello-ack" end (some q.ack_id) (some (unsupported_body s))),
      )
  unfolding runtime_finish read_one
  runtime-refuses m v k h = ground (arith, lawful.ack_reload (ack_payload v), h, k)

  -- Both sides end with the highest version that both support, and the connector with the
  -- runtime's configuration.
  pub handshake-agrees :
      (v : ℤ)
      → highest_overlap q.runtime_versions q.connector_versions ≡ some v
      → handshake s q ≡ (agreed v, agreed (v, q.config))
  unfolding handshake connector_finish
  handshake-agrees v h =
      let (mine, _) = overlap-common q.runtime_versions q.connector_versions v h in
      let (m, top) = max_of-some q.runtime_versions v mine in
      rw (
        hello-sent m top,
        ack-sent m (some v) v h refl,
        runtime-agrees m v (overlap-one q.runtime_versions v mine),
      )

  -- Without a common version both sides raise `UnsupportedVersionError`, the connector with the
  -- message that the runtime sends back.
  pub handshake-refuses :
      (m n : ℤ)
      → max_of q.runtime_versions ≡ some m
      → max_of q.connector_versions ≡ some n
      → highest_overlap q.runtime_versions q.connector_versions ≡ none
      → handshake s q ≡ (failed refusal, failed refusal)
  unfolding handshake connector_finish read_one
  handshake-refuses m n top high h =
      let foreign =
        not-contains q.runtime_versions q.connector_versions n h
          (max_of-contains q.connector_versions n high) in
      rw (
        hello-sent m top,
        ack-sent m none n h high,
        runtime-refuses m n top (overlap-foreign q.runtime_versions n foreign),
      )

-- The handshake: with a common version both sides return the highest one, and no version `u` in
-- both lists is higher; without one, both raise `UnsupportedVersionError`, and no `u` is in both
-- lists. (Neither side's list is empty.)
pub handshake_lem :
    (s : Schemas) (q : Parties) (m n u : ℤ)
    → IsSchemas s
    → max_of q.runtime_versions ≡ some m
    → max_of q.connector_versions ≡ some n
    → ((v : ℤ) × (handshake s q ≡ (agreed v, agreed (v, q.config)))
        × (contains q.runtime_versions v ≡ true)
        × (contains q.connector_versions v ≡ true)
        × (((contains q.runtime_versions u && contains q.connector_versions u) ≡ false) ⊎ (u ≤ℤ v)))
      ⊎ ((handshake s q ≡ (failed refusal, failed refusal))
          × ((contains q.runtime_versions u && contains q.connector_versions u) ≡ false))
handshake_lem s q m n u lawful top high =
    elim (Option-cases (highest_overlap q.runtime_versions q.connector_versions)) [
      | inl e ↦ inr (
        handshake-refuses s lawful q m n top high e,
        ground (arith, overlap-none q.runtime_versions q.connector_versions u e),
      )
      | inr (v, e) ↦
          let (mine, theirs) = overlap-common q.runtime_versions q.connector_versions v e in
          inl (
            v,
            handshake-agrees s lawful q v e,
            mine,
            theirs,
            ground (arith, overlap-upper q.runtime_versions q.connector_versions v u e),
          )
    ]

-- ===== src/Protocol/Negotiation.antt =====
-- The hello handshake (src/prow/connector/protocol/negotiation.py). Each side is what it does
-- between two messages; `Read` is what `_read_one` returns or raises.
use prow_cti.Json.{Fields, end}
use prow_cti.Prelude.{
  Bool, List, Option, String, [], false, filter, if◌then◌else◌, none, some, ◌==◌, ◌||◌, ◌∷◌, ◌≡◌,
}
use prow_cti.Prelude.Int.{eqb_ℤ, leb_ℤ, pos, ℤ}
use prow_cti.Protocol.Codec.{ProtocolFailure, message_too_large, protocol_error, stream_closed}
use prow_cti.Protocol.Messages.{
  Envelope, ErrorBody, ErrorCode, HelloAckPayload, HelloPayload, error, malformed_message,
  unsupported_version,
}
pub mod Handshake
pub mod Agreement

-- `UnsupportedVersionError`, `NegotiationTimeoutError` and the other `ProtocolError`s, and the
-- `ValueError` of `max` on an empty list.
pub data NegotiationError : Type 0 where
  unsupported : String → NegotiationError
  negotiation_timeout : NegotiationError
  refused : ErrorCode → String → NegotiationError
  no_versions : NegotiationError

pub data Negotiated {ℓ} (A : Type ℓ) : Type ℓ where
  agreed : A → Negotiated A
  failed : NegotiationError → Negotiated A

-- What a read of one envelope meets.
pub data Read : Type 0 where
  received : Envelope → Read
  read_failed : ProtocolFailure → Read
  read_timeout : Read

-- pydantic's serializers and validators of the two payloads.
pub record Schemas : Type 0 where
  pub dump_hello : HelloPayload → Fields
  pub validate_hello : Fields → Option HelloPayload
  pub dump_ack : HelloAckPayload → Fields
  pub validate_ack : Fields → Option HelloAckPayload

-- Documented behaviour: a dumped payload is valid and loads as itself.
pub record IsSchemas (s : Schemas) : Type 0 where
  pub hello_reload : (p : HelloPayload) → s.validate_hello (s.dump_hello p) ≡ some p
  pub ack_reload : (p : HelloAckPayload) → s.validate_ack (s.dump_ack p) ≡ some p

-- `DEFAULT_SUPPORTED_VERSIONS`
abbrev pub default_supported_versions : List ℤ
default_supported_versions = pos 1 ∷ []

unfoldable pub contains : List ℤ → ℤ → Bool
contains [] v = false
contains (u ∷ us) v = eqb_ℤ u v || contains us v

-- `max`, which raises on an empty list.
abbrev higher : ℤ → Option ℤ → Option ℤ
higher v none = some v
higher v (some u) = if leb_ℤ u v then some v else some u

unfoldable pub max_of : List ℤ → Option ℤ
max_of [] = none
max_of (v ∷ vs) = higher v (max_of vs)

-- `_highest_overlap`
unfoldable pub highest_overlap : List ℤ → List ℤ → Option ℤ
highest_overlap left right = max_of (filter (contains right) left)

-- `agreed_version if agreed_version is not None else max(supported_versions)`
abbrev pub advertised : Option ℤ → List ℤ → Option ℤ
advertised (some v) versions = some v
advertised none versions = max_of versions

-- The conversion of failures in `_read_one`.
unfoldable pub read_one : Read → Negotiated Envelope
read_one (received e) = agreed e
read_one read_timeout = failed negotiation_timeout
read_one (read_failed stream_closed) =
    failed (refused malformed_message "Stream closed before hello negotiation completed.")
read_one (read_failed (protocol_error code message)) = failed (refused code message)
read_one (read_failed (message_too_large size limit)) =
    failed (refused malformed_message "Protocol line exceeds the maximum line size.")

abbrev pub envelope : ℤ → String → String → Fields → Option String → Option ErrorBody → Envelope
envelope v id kind payload id_ref body = record {
  v = v;
  id = id;
  kind = kind;
  payload = payload;
  id_ref = id_ref;
  error = body;
}

module _ (s : Schemas) where
  -- `perform_hello_runtime` up to the first `await`: the hello that is written.
  unfoldable pub runtime_hello : List ℤ → String → String → Fields → Negotiated Envelope
  runtime_hello versions id runtime_version config = elim (max_of versions) [
    | none ↦ failed no_versions
    | some v ↦
        let payload = s.dump_hello (record {
          runtime_version = runtime_version;
          supported_protocol_versions = versions;
          config = config;
        }) in
        agreed (envelope v id "hello" payload none none)
  ]

  raise_body : ErrorBody → NegotiationError
  raise_body b = elim b.code [
    | unsupported_version ↦ unsupported b.message
    | _ ↦ refused b.code b.message
  ]

  abbrev pub unsupported_body : ErrorBody
  unsupported_body = record {
    code = unsupported_version;
    message = "Connector requested an unsupported protocol version.";
    details = end;
  }

  -- The check of the acknowledged version: the result, and the error that is written back.
  check_version : List ℤ → String → Envelope → HelloAckPayload → Negotiated ℤ × Option Envelope
  check_version versions id response ack =
      elim (highest_overlap versions (ack.protocol_version ∷ [])) [
        | some v ↦ (agreed v, none)
        | none ↦ elim (max_of versions) [
          | none ↦ (failed no_versions, none)
          | some v ↦ (
            failed (unsupported "Connector requested an unsupported protocol version."),
            some (envelope v id "hello-ack" end (some response.id) (some unsupported_body)),
          )
        ]
      ]

  -- `perform_hello_runtime` from the read of the acknowledgement on.
  unfoldable pub runtime_finish : List ℤ → String → Read → Negotiated ℤ × Option Envelope
  unfolding raise_body check_version
  runtime_finish versions id r = elim (read_one r) [
    | failed e ↦ (failed e, none)
    | agreed response ↦ elim response.error [
      | some b ↦ (failed (raise_body b), none)
      | none ↦
          if response.kind == "hello-ack"
          then elim (s.validate_ack response.payload) [
            | none ↦ (
              failed (
                  refused malformed_message
                    "Hello-ack payload does not match the protocol schema."),
              none,
            )
            | some ack ↦ check_version versions id response ack
          ]
          else (
            failed (refused malformed_message "Expected hello-ack during protocol negotiation."),
            none,
          )
    ]
  ]

  -- `perform_hello_connector` up to the write of its acknowledgement: the version agreed on, if any,
  -- the payload of the hello, and the acknowledgement.
  abbrev acknowledge :
      List ℤ
      → String
      → String
      → Envelope
      → HelloPayload
      → Negotiated (Option ℤ × HelloPayload × Envelope)
  acknowledge versions id connector_version hello p =
      let common = highest_overlap p.supported_protocol_versions versions in
      elim (advertised common versions) [
        | none ↦ failed no_versions
        | some v ↦
            let ack : HelloAckPayload = record {
              connector_version = connector_version;
              protocol_version = v;
            } in
            agreed
              (common, p, envelope hello.v id "hello-ack" (s.dump_ack ack) (some hello.id) none)
      ]

  unfoldable pub connector_ack :
      List ℤ → String → String → Read → Negotiated (Option ℤ × HelloPayload × Envelope)
  connector_ack versions id connector_version r = elim (read_one r) [
    | failed e ↦ failed e
    | agreed hello ↦ elim hello.error [
      | some b ↦ failed (refused b.code b.message)
      | none ↦
          if hello.kind == "hello"
          then elim (s.validate_hello hello.payload) [
            | none ↦
                failed
                  (refused malformed_message "Hello payload does not match the protocol schema.")
            | some p ↦ acknowledge versions id connector_version hello p
          ]
          else failed (refused malformed_message "Expected hello during protocol negotiation.")
    ]
  ]

-- `perform_hello_connector` from there on: without a common version it reads the runtime's error.
abbrev no_common : Envelope → NegotiationError
no_common response = elim response.error [
  | none ↦ unsupported "No overlapping connector protocol version."
  | some b ↦ elim b.code [
    | unsupported_version ↦ unsupported b.message
    | _ ↦ unsupported "No overlapping connector protocol version."
  ]
]

unfoldable pub connector_finish : Option ℤ × HelloPayload → Read → Negotiated (ℤ × Fields)
connector_finish (some v, p) r = agreed (v, p.config)
connector_finish (none, p) r = elim (read_one r) [
  | failed e ↦ failed e
  | agreed response ↦ failed (no_common response)
]

-- ===== src/Protocol/Messages.antt =====
-- Envelopes and payloads (src/prow/connector/protocol/messages.py), and the errors that the
-- protocol code raises (src/prow/connector/protocol/codec.py).
use prow_cti.Prelude.{ℕ, Option, String, List}
use prow_cti.Json.{Fields}
use prow_cti.Prelude.Int.{ℤ}

-- `ErrorCode`
pub data ErrorCode : Type 0 where
  unsupported_version malformed_message unknown_kind validation_error : ErrorCode
  state_key_too_large state_value_too_large internal_error : ErrorCode

-- `LogLevel`
pub data LogLevel : Type 0 where
  debug info warning error critical : LogLevel

-- `HealthStatus`
pub data HealthStatus : Type 0 where
  healthy degraded unhealthy : HealthStatus

-- `ErrorBody`
pub record ErrorBody : Type 0 where
  pub code : ErrorCode
  pub message : String
  pub details : Fields

-- `Envelope`
pub record Envelope : Type 0 where
  pub v : ℤ
  pub id : String
  pub kind : String
  pub payload : Fields
  pub id_ref : Option String
  pub error : Option ErrorBody

-- `HelloPayload`
pub record HelloPayload : Type 0 where
  pub runtime_version : String
  pub supported_protocol_versions : List ℤ
  pub config : Fields

-- `HelloAckPayload`
pub record HelloAckPayload : Type 0 where
  pub connector_version : String
  pub protocol_version : ℤ

-- `ValidationFailure`
pub record ValidationFailure : Type 0 where
  pub object_id : String
  pub error : String

-- `EmitAckPayload`
pub record EmitAckPayload : Type 0 where
  pub accepted : ℕ
  pub duplicates : ℕ
  pub validation_failures : List ValidationFailure

-- `HealthAckPayload`
pub record HealthAckPayload : Type 0 where
  pub status : HealthStatus
  pub details : Fields

-- ===== src/Protocol/Codec.antt =====
-- Encoding and decoding of one envelope (src/prow/connector/protocol/codec.py).
use prow_cti.Json.{Json}
use prow_cti.Prelude.{
  All, List, Option, String, [], arith, eqb, if◌then◌else◌, length, ltb, none, refl, some, ℕ, ◌++◌,
  ◌^◌, ◌∷◌, ◌≡◌, ◌≢◌,
}
use prow_cti.Protocol.Messages.{Envelope, ErrorCode, malformed_message}

-- `MAX_MESSAGE_BYTES`
abbrev pub max_message_bytes : ℕ
max_message_bytes = 2 ^ 20

-- What protocol code raises. `MessageTooLargeError` is a `ProtocolError` with the code
-- `malformed_message`, the size and the limit; `stream_closed` is `StreamClosedBeforeLineError`.
pub data ProtocolFailure : Type 0 where
  protocol_error : ErrorCode → String → ProtocolFailure
  message_too_large : ℕ → ℕ → ProtocolFailure
  stream_closed : ProtocolFailure

pub data Result {ℓ} (A : Type ℓ) : Type ℓ where
  ok : A → Result A
  err : ProtocolFailure → Result A

infixl 5 ◌>>=◌
abbrev pub ◌>>=◌ {ℓ κ} : {A : Type ℓ} {B : Type κ} → Result A → (A → Result B) → Result B
ok a >>= f = f a
err e >>= f = err e

abbrev pub Bytes : Type 0
Bytes = List ℕ

abbrev pub newline : ℕ
newline = 10

-- The libraries under the codec: pydantic's serializer and validator, the UTF-8 codec and
-- `json.loads`. A text is the list of its code points.
pub record Format : Type 0 where
  -- `envelope.model_dump_json().encode("utf-8")`
  pub model_dump_json : Envelope → Bytes
  -- `line.decode("utf-8")`
  pub utf8_decode : Bytes → Option (List ℕ)
  -- `json.loads`
  pub loads : List ℕ → Option Json
  -- `Envelope.model_validate`
  pub model_validate : Json → Option Envelope

-- Documented behaviour, for an envelope: its compact JSON holds no line break, and what pydantic
-- dumps is decoded (UTF-8 extends ASCII), loaded and validated to the same envelope.
pub record IsCarried (f : Format) (e : Envelope) : Type 0 where
  pub text : List ℕ
  pub json : Json
  pub no_newline : All (λ b. b ≢ newline) (f.model_dump_json e)
  pub not_empty : f.model_dump_json e ≢ []
  pub decoded : f.utf8_decode (f.model_dump_json e ++ newline ∷ []) ≡ some (text ++ newline ∷ [])
  pub loaded : f.loads text ≡ some json
  pub valid : f.model_validate json ≡ some e

-- `if decoded.endswith("\n"): decoded = decoded[:-1]`
unfoldable pub chomp : List ℕ → List ℕ
chomp [] = []
chomp (c ∷ []) = if eqb c newline then [] else c ∷ []
chomp (c ∷ d ∷ t) = c ∷ chomp (d ∷ t)

abbrev pub require {ℓ} : {A : Type ℓ} → Option A → String → Result A
require (some a) message = ok a
require none message = err (protocol_error malformed_message message)

-- `encode`
unfoldable pub encode : Format → Envelope → Result Bytes
encode f envelope =
    let encoded = f.model_dump_json envelope ++ newline ∷ [] in
    if ltb max_message_bytes (length encoded)
    then err (message_too_large (length encoded) max_message_bytes)
    else ok encoded

-- `decode`
unfoldable pub decode : Format → Bytes → Result Envelope
unfolding chomp
decode f line = do
  decoded ← require (f.utf8_decode line) "Protocol message is not valid UTF-8."
  data' ← require (f.loads (chomp decoded)) "Protocol message is not valid JSON."
  require (f.model_validate data') "Protocol message does not match the envelope schema."

chomp-append : (t : List ℕ) → chomp (t ++ newline ∷ []) ≡ t
unfolding chomp
chomp-append [] = refl
chomp-append (c ∷ []) = refl
chomp-append (c ∷ d ∷ t) = ground (arith, chomp-append (d ∷ t))

-- Whatever `encode` accepts, `decode` reads back as the same envelope, line break included.
pub decode-encode :
    (f : Format) (e : Envelope) (line : Bytes)
    → IsCarried f e
    → encode f e ≡ ok line
    → decode f line ≡ ok e
unfolding encode decode
decode-encode f e line carried h =
    let same : line ≡ f.model_dump_json e ++ newline ∷ [] = ground arith in
    rw (same, carried.decoded, chomp-append, carried.loaded, carried.valid)

-- ===== src/Protocol/Tests.antt =====
-- Concrete inputs for the protocol (src/prow/connector/protocol).
use prow_cti.Json.{Fields, Items, Json, arr, cons, end, field, int, nil, null, obj, str}
use prow_cti.Prelude.{
  All, List, Option, String, [], ap, arith, false, length, length-append, none, refl, some, suc,
  true, zero, ℕ, ◌&&◌, ◌++◌, ◌+◌, ◌<◌, ◌^◌, ◌∷◌, ◌≡◌, ◌≢◌, ◌≤◌, ◌⊎◌,
}
use prow_cti.Prelude.Int.{pos, ℤ, ◌≤ℤ◌}
use prow_cti.Protocol.Codec.{
  Format, IsCarried, ProtocolFailure, Result, encode, max_message_bytes, message_too_large, newline,
}
use prow_cti.Protocol.Framing.{
  max_line_bytes, read_messages, stream_limit, truncated, write_message,
}
use prow_cti.Protocol.Framing.Delivery.{
  Fits, read_messages-over_stream_limit, read_messages-truncated, read_messages-write_all,
  write_all,
}
use prow_cti.Protocol.Framing.Roundtrip.{read_messages-total}
use prow_cti.Protocol.Messages.{Envelope, HelloAckPayload, HelloPayload}
use prow_cti.Protocol.Negotiation.{IsSchemas, Negotiated, Schemas, agreed, contains, max_of}
use prow_cti.Protocol.Negotiation.Handshake.{Parties, handshake, handshake_lem, refusal}

abbrev ping : Envelope
ping = record { v = pos 1; id = "m1"; kind = "health"; payload = end; id_ref = none; error = none }

-- A serializer that writes `n` letters for every envelope, and a validator that knows one envelope.
abbrev letters : ℕ → List ℕ
letters zero = []
letters (suc n) = b'A' ∷ letters n

abbrev format : ℕ → Format
format n = record {
  model_dump_json = λ e. letters n;
  utf8_decode = some;
  loads = λ text. some null;
  model_validate = λ j. some ping;
}

letters-no_newline : (n : ℕ) → All (λ b. b ≢ newline) (letters n)
letters-no_newline zero = tt
letters-no_newline (suc n) = (omega arith, letters-no_newline n)

length-letters : (n : ℕ) → length (letters n) ≡ n
length-letters zero = omega arith
length-letters (suc n) = omega (arith, length-letters n)

letters-not_empty : (n : ℕ) → 0 < n → letters n ≢ []
letters-not_empty n h e =
    let no : ⊥ = omega (arith, h, ap length e, length-letters n) in elim no [ ]

format-IsCarried : (n : ℕ) → 0 < n → IsCarried (format n) ping
format-IsCarried n h = record {
  text = letters n;
  json = null;
  no_newline = letters-no_newline n;
  not_empty = letters-not_empty n h;
  decoded = refl;
  loaded = refl;
  valid = refl;
}

encoded :
    (n : ℕ) → n < max_message_bytes → encode (format n) ping ≡ Result.ok (letters n ++ newline ∷ [])
unfolding encode
encoded n h = ground (arith, length-append (letters n) (newline ∷ []), length-letters n)

abbrev two_frames : List ℕ
two_frames = (letters 3 ++ newline ∷ []) ++ (letters 3 ++ newline ∷ [])

two-written : write_all (format 3) [] (ping ∷ ping ∷ []) ≡ Result.ok two_frames
unfolding write_all write_message
two-written = rw (encoded 3 (omega arith), write_all, write_message)

two-fit : All (Fits (format 3) 64) (ping ∷ ping ∷ [])
two-fit = (
  (format-IsCarried 3 (omega arith), omega arith),
  ((format-IsCarried 3 (omega arith), omega arith), tt),
)

read_messages-write_all_example :
    read_messages (format 3) 64 max_message_bytes 3 two_frames ≡ some (ping ∷ ping ∷ [], none)
read_messages-write_all_example =
    read_messages-write_all (format 3) 64 (ping ∷ ping ∷ []) two_frames two-fit two-written

read_messages-truncated_example :
    read_messages (format 3) 64 max_message_bytes 3 (two_frames ++ b'A' ∷ [])
    ≡ some (ping ∷ ping ∷ [], some truncated)
read_messages-truncated_example =
    read_messages-truncated (format 3) 64 (ping ∷ ping ∷ []) two_frames b'A' [] two-fit two-written
      (omega arith, tt) (omega arith) (omega arith)

read_messages-total_example :
    (es : List Envelope) × (failure : Option ProtocolFailure) × (read_messages
        (format 3)
        64
        max_line_bytes
        10
        two_frames
      ≡ some (es, failure))
read_messages-total_example =
    read_messages-total (format 3) 64 max_line_bytes 10 two_frames (omega arith)

-- One byte more than the buffer of a reader holds.
abbrev large : ℕ
large = 2 ^ 16 + 1

read_messages-over_stream_limit_example :
    (length (letters large ++ newline ∷ []) ≤ max_line_bytes)
    × (read_messages
          (format large)
          stream_limit
          max_line_bytes
          1
          ((letters large ++ newline ∷ []) ++ [])
        ≡ some ([], some (message_too_large (length (letters large)) max_line_bytes)))
read_messages-over_stream_limit_example =
    read_messages-over_stream_limit (format large) ping (letters large ++ newline ∷ []) []
      (format-IsCarried large (omega arith)) (encoded large (omega arith))
      (omega (arith, length-letters large))

-- Payloads written as their fields, in their order.
abbrev ints : List ℤ → Items
ints [] = nil
ints (v ∷ vs) = cons (int v) (ints vs)

abbrev cons_int : Json → Option (List ℤ) → Option (List ℤ)
cons_int (int v) (some vs) = some (v ∷ vs)
cons_int _ _ = none

abbrev ints_of : Items → Option (List ℤ)
ints_of nil = some []
ints_of (cons j js) = cons_int j (ints_of js)

abbrev hello_of : String → Fields → Option (List ℤ) → Option HelloPayload
hello_of version config (some vs) =
    some (record { runtime_version = version; supported_protocol_versions = vs; config = config })
hello_of version config none = none

abbrev validate_hello_fields : Fields → Option HelloPayload
validate_hello_fields (field a (str version) (field b (arr vs) (field c (obj config) end))) =
    hello_of version config (ints_of vs)
validate_hello_fields _ = none

abbrev validate_ack_fields : Fields → Option HelloAckPayload
validate_ack_fields (field a (str version) (field b (int v) end)) =
    some (record { connector_version = version; protocol_version = v })
validate_ack_fields _ = none

abbrev schemas : Schemas
schemas = record {
  dump_hello = λ p. field "runtime_version" (str p.runtime_version) (
      field "supported_protocol_versions" (arr (ints p.supported_protocol_versions))
        (field "config" (obj p.config) end));
  validate_hello = validate_hello_fields;
  dump_ack = λ p.
      field "connector_version" (str p.connector_version)
        (field "protocol_version" (int p.protocol_version) end);
  validate_ack = validate_ack_fields;
}

ints-reload : (vs : List ℤ) → ints_of (ints vs) ≡ some vs
ints-reload [] = refl
ints-reload (v ∷ vs) = ap (cons_int (int v)) (ints-reload vs)

schemas-IsSchemas : IsSchemas schemas
schemas-IsSchemas = record {
  hello_reload =
      λ p. ap (hello_of p.runtime_version p.config) (ints-reload p.supported_protocol_versions);
  ack_reload = λ p. refl;
}

abbrev parties : Parties
parties = record {
  runtime_versions = pos 1 ∷ pos 2 ∷ [];
  connector_versions = pos 1 ∷ pos 3 ∷ [];
  runtime_version = "0.2";
  connector_version = "0.1";
  config = end;
  hello_id = "h";
  ack_id = "a";
  error_id = "e";
}

highest :
    (max_of parties.runtime_versions ≡ some (pos 2))
    × (max_of parties.connector_versions ≡ some (pos 3))
unfolding max_of
highest = (refl, refl)

handshake_lem_example :
    ((v : ℤ) × (handshake schemas parties ≡ (agreed v, agreed (v, end)))
      × (contains parties.runtime_versions v ≡ true)
      × (contains parties.connector_versions v ≡ true)
      × (((contains parties.runtime_versions (pos 1) && contains parties.connector_versions (pos 1))
            ≡ false)
          ⊎ (pos 1 ≤ℤ v)))
    ⊎ ((handshake schemas parties ≡ (Negotiated.failed refusal, Negotiated.failed refusal))
        × ((contains parties.runtime_versions (pos 1)
              && contains parties.connector_versions (pos 1))
            ≡ false))
handshake_lem_example =
    handshake_lem schemas parties (pos 2) (pos 3) (pos 1) schemas-IsSchemas highest.0 highest.1

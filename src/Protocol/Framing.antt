-- ===== src/Protocol/Framing.antt =====
-- Newline framing over an asyncio stream (src/prow/connector/protocol/framing.py). A stream is
-- the bytes that arrive before its end, and the buffer limit of its `StreamReader`.
use prow_cti.Prelude.{
  Bool, List, Option, [], eqb, false, if◌then◌else◌, length, ltb, none, some, suc, zero, ℕ, ◌++◌,
  ◌+◌, ◌-◌, ◌^◌, ◌∷◌,
}
use prow_cti.Protocol.Codec.{
  Format, ProtocolFailure, Result, Bytes, decode, encode, err, message_too_large, newline, ok,
  protocol_error, stream_closed, ◌>>=◌,
}
use prow_cti.Protocol.Messages.{Envelope, malformed_message}
pub mod Roundtrip
pub mod Delivery

-- asyncio's default buffer limit, which every reader of the program has: neither
-- `create_subprocess_exec` nor `StreamReader()` is given another one.
abbrev pub stream_limit : ℕ
stream_limit = 2 ^ 16

-- `max_line_bytes`, the default of the framing functions
abbrev pub max_line_bytes : ℕ
max_line_bytes = 2 ^ 20

-- The bytes up to and with the first line break and what follows it, or the bytes of a last line
-- that has none.
pub data Split : Type 0 where
  full_line : Bytes → Bytes → Split
  cut_line : Bytes → Split

abbrev pub grow : ℕ → Split → Split
grow b (full_line l rest) = full_line (b ∷ l) rest
grow b (cut_line l) = cut_line (b ∷ l)

unfoldable pub split : Bytes → Split
split [] = cut_line []
split (b ∷ s) = let rest = split s in if eqb b newline then full_line (b ∷ []) s else grow b rest

-- `StreamReader.readuntil(b"\n")`: a chunk and the rest of the stream, `IncompleteReadError` with
-- the partial bytes, or `LimitOverrunError` with the bytes consumed. The limit is on the bytes
-- before the separator; without a separator it is on the whole buffer. (Where a chunk is over the
-- limit before its separator arrives, asyncio raises earlier and with a smaller count.)
pub data ReadUntil : Type 0 where
  chunk : Bytes → Bytes → ReadUntil
  incomplete : Bytes → ReadUntil
  limit_overrun : ℕ → ReadUntil

abbrev within : ℕ → Split → ReadUntil
within limit (full_line l rest) =
    if ltb (limit + 1) (length l) then limit_overrun (length l - 1) else chunk l rest
within limit (cut_line l) = if ltb limit (length l) then limit_overrun (length l) else incomplete l

unfoldable pub readuntil : ℕ → Bytes → ReadUntil
unfolding split
readuntil limit s = within limit (split s)

abbrev pub truncated : ProtocolFailure
truncated = protocol_error malformed_message "Stream ended in the middle of a protocol message."

-- The handler of `IncompleteReadError`.
abbrev pub ended : ℕ → Bytes → ProtocolFailure
ended max_line [] = stream_closed
ended max_line (b ∷ l) =
    if ltb max_line (length (b ∷ l)) then message_too_large (length (b ∷ l)) max_line else truncated

unfoldable pub is_blank : Bytes → Bool
is_blank (b ∷ []) = eqb b newline
is_blank _ = false

-- One round of `read_one_envelope`: `retry` is the `continue` after a blank line.
pub data Round : Type 0 where
  retry : Bytes → Round
  done : Result (Envelope × Bytes) → Round

module _ (f : Format) (limit max_line : ℕ) where
  unfoldable pub read_round : Bytes → Round
  read_round s = elim (readuntil limit s) [
    | incomplete l ↦ done (err (ended max_line l))
    | limit_overrun n ↦ done (err (message_too_large n max_line))
    | chunk l rest ↦
        if ltb max_line (length l)
        then done (err (message_too_large (length l) max_line))
        else if is_blank l
        then retry rest
        else done (decode f l >>= λ e. ok (e, rest))
  ]

  -- `read_one_envelope`: fuel bounds the blank lines that are skipped; `none` is no fuel left.
  unfoldable pub read_one_envelope : ℕ → Bytes → Option (Result (Envelope × Bytes))
  read_one_envelope zero s = none
  read_one_envelope (suc fuel) s = elim (read_round s) [
    | retry rest ↦ read_one_envelope fuel rest
    | done r ↦ some r
  ]

  -- `read_messages`, run to its end: the envelopes that it yields, and the failure that it raises,
  -- or none where it returns at a clean end of the stream.
  unfoldable pub read_messages : ℕ → Bytes → Option (List Envelope × Option ProtocolFailure)
  read_messages zero s = none
  read_messages (suc fuel) s = elim (read_one_envelope (suc (length s)) s) [
    | none ↦ none
    | some (err stream_closed) ↦ some ([], none)
    | some (err e) ↦ some ([], some e)
    | some (ok (e, rest)) ↦ elim (read_messages fuel rest) [
      | none ↦ none
      | some (es, failure) ↦ some (e ∷ es, failure)
    ]
  ]

-- `write_message`: the bytes that the stream has after the write.
unfoldable pub write_message : Format → Bytes → Envelope → Result Bytes
write_message f written envelope = encode f envelope >>= λ line. ok (written ++ line)

-- ===== src/Protocol/Framing/Delivery.antt =====
-- Envelopes written on a stream arrive in order and whole, if they fit the reader's buffer, and a
-- larger one is refused (src/prow/connector/protocol/framing.py and codec.py).
use prow_cti.Prelude.{
  All, List, Option, [], append-nil, append_assoc, arith, false, length, length-append, none, refl,
  some, suc, ℕ, ◌++◌, ◌+◌, ◌<◌, ◌∙◌, ◌∷◌, ◌≡◌, ◌≢◌, ◌≤◌,
}
use prow_cti.Protocol.Codec.{
  Format, IsCarried, ProtocolFailure, Result, Bytes, decode-encode, encode, max_message_bytes,
  message_too_large, newline, ok, ◌>>=◌,
}
use prow_cti.Protocol.Framing.{
  chunk, cut_line, done, is_blank, limit_overrun, max_line_bytes, read_messages, read_one_envelope,
  read_round, readuntil, split, stream_limit, truncated, write_message,
}
use prow_cti.Protocol.Framing.Roundtrip.{read_messages-next, read_one-done, split-frame}
use prow_cti.Protocol.Messages.{Envelope}
use Prim.Native.Nat.add

-- `write_message` for each envelope in turn.
unfoldable pub write_all : Format → Bytes → List Envelope → Result Bytes
write_all f written [] = ok written
write_all f written (e ∷ es) = write_message f written e >>= λ w. write_all f w es

readuntil-frame :
    (limit : ℕ) (xs s : Bytes)
    → All (λ b. b ≢ newline) xs
    → length xs ≤ limit
    → readuntil limit ((xs ++ newline ∷ []) ++ s) ≡ chunk (xs ++ newline ∷ []) s
unfolding readuntil
readuntil-frame limit xs s h fits =
    let counted = length-append xs (newline ∷ []) in
    rw (append_assoc xs (newline ∷ []) s, split-frame xs s h) (ground (arith, counted))

readuntil-long :
    (limit : ℕ) (xs s : Bytes)
    → All (λ b. b ≢ newline) xs
    → limit < length xs
    → readuntil limit ((xs ++ newline ∷ []) ++ s) ≡ limit_overrun (length xs)
unfolding readuntil
readuntil-long limit xs s h long =
    let counted = length-append xs (newline ∷ []) in
    rw (append_assoc xs (newline ∷ []) s, split-frame xs s h) (ground (arith, counted))

not-blank : (xs : Bytes) → xs ≢ [] → is_blank (xs ++ newline ∷ []) ≡ false
unfolding is_blank
not-blank [] h = absurd (h refl)
not-blank (x ∷ []) h = refl
not-blank (x ∷ y ∷ xs) h = refl

-- What `encode` returns, and the size that it allows.
encode-ok :
    (f : Format) (e : Envelope) (l : Bytes)
    → encode f e ≡ ok l
    → (l ≡ f.model_dump_json e ++ newline ∷ []) × (length l ≤ max_message_bytes)
unfolding encode
encode-ok f e l h = ground arith

module _ (f : Format) (limit : ℕ) where
  frame-arrives :
      (e : Envelope) (l s : Bytes)
      → IsCarried f e
      → encode f e ≡ ok l
      → length (f.model_dump_json e) ≤ limit
      → (readuntil limit (l ++ s) ≡ chunk l s) × (is_blank l ≡ false)
  frame-arrives e l s c h fits =
      let same = (encode-ok f e l h).0 in
      rw same (
        readuntil-frame limit (f.model_dump_json e) s c.no_newline fits,
        not-blank (f.model_dump_json e) c.not_empty,
      )

  frame-done :
      (e : Envelope) (l s : Bytes)
      → IsCarried f e
      → encode f e ≡ ok l
      → length (f.model_dump_json e) ≤ limit
      → read_round f limit max_message_bytes (l ++ s) ≡ done (ok (e, s))
  unfolding read_round
  frame-done e l s c h fits =
      let (arrives, solid) = frame-arrives e l s c h fits in
      ground (arith, arrives, solid, (encode-ok f e l h).1, decode-encode f e l c h)

  -- An envelope that the libraries carry and that fits the reader's buffer.
  abbrev pub Fits : Envelope → Type 0
  Fits e = IsCarried f e × (length (f.model_dump_json e) ≤ limit)

  -- The reader takes a frame, and goes on with what follows it.
  read_frame :
      (e : Envelope) (l s : Bytes) (es : List Envelope) (failure : Option ProtocolFailure)
      (fuel : ℕ)
      → encode f e ≡ ok l
      → Fits e
      → read_messages f limit max_message_bytes fuel s ≡ some (es, failure)
      → read_messages f limit max_message_bytes (suc fuel) (l ++ s) ≡ some (e ∷ es, failure)
  read_frame e l s es failure fuel h fits =
      read_messages-next f limit max_message_bytes fuel (l ++ s) s e es failure (
        read_one-done f limit max_message_bytes (length (l ++ s)) (l ++ s) (ok (e, s))
          (frame-done e l s fits.0 h fits.1))

write_all-inversion :
    (f : Format) (w : Bytes) (e : Envelope) (es : List Envelope) (s : Bytes)
    → write_all f w (e ∷ es) ≡ ok s
    → (l : Bytes) × (encode f e ≡ ok l) × (write_all f (w ++ l) es ≡ ok s)
unfolding write_all write_message
write_all-inversion f w e es s h = ground arith

module _ (f : Format) (limit : ℕ) (tail : Bytes) (failure : Option ProtocolFailure) (fuel : ℕ)
    (last : read_messages f limit max_message_bytes fuel tail ≡ some ([], failure)) where
  read_frames :
      (es : List Envelope) (w : Bytes) {s : Bytes}
      → All (Fits f limit) es
      → write_all f w es ≡ ok s
      → (t : Bytes) × (s ≡ w ++ t)
        × (read_messages f limit max_message_bytes (length es + fuel) (t ++ tail)
            ≡ some (es, failure))
  unfolding write_all
  read_frames [] w fits h = ([], ground (arith, append-nil w), rw add.zero last)
  read_frames (e ∷ es) w {s} fits h =
      let (l, coded, rest) = write_all-inversion f w e es s h in
      let (t, same, tail_read) = read_frames es (w ++ l) fits.1 rest in
      (
        l ++ t,
        same ∙ append_assoc w l t,
        rw (append_assoc l t tail, add.suc)
            (read_frame f limit e l (t ++ tail) es failure (length es + fuel) coded fits.0
              tail_read),
      )

  frames_then_tail :
      (es : List Envelope) (s : Bytes)
      → All (Fits f limit) es
      → write_all f [] es ≡ ok s
      → read_messages f limit max_message_bytes (length es + fuel) (s ++ tail) ≡ some (es, failure)
  frames_then_tail es s fits h = let (t, same, reads) = read_frames es [] fits h in rw same reads

read_messages-eof :
    (f : Format) (limit : ℕ) → read_messages f limit max_message_bytes 1 [] ≡ some ([], none)
unfolding read_messages read_one_envelope read_round readuntil split
read_messages-eof f limit = ground arith

-- Messages that are written one after another and that fit the reader's buffer are read back, in
-- the same order and nothing else, and the reader ends cleanly at the end of the stream.
pub read_messages-write_all :
    (f : Format) (limit : ℕ) (es : List Envelope) (s : Bytes)
    → All (Fits f limit) es
    → write_all f [] es ≡ ok s
    → read_messages f limit max_message_bytes (length es + 1) s ≡ some (es, none)
read_messages-write_all f limit es s fits h =
    let reads = frames_then_tail f limit [] none 1 (read_messages-eof f limit) es s fits h in
    rw (append-nil s) at reads

split-cut : (xs : Bytes) → All (λ b. b ≢ newline) xs → split xs ≡ cut_line xs
unfolding split
split-cut [] h = refl
split-cut (x ∷ xs) h = ground (arith, split-cut xs h.1)

read_messages-cut :
    (f : Format) (limit : ℕ) (x : ℕ) (xs : Bytes)
    → All (λ b. b ≢ newline) (x ∷ xs)
    → length (x ∷ xs) ≤ limit
    → length (x ∷ xs) ≤ max_message_bytes
    → read_messages f limit max_message_bytes 1 (x ∷ xs) ≡ some ([], some truncated)
unfolding read_messages read_one_envelope read_round readuntil
read_messages-cut f limit x xs h fits small =
    rw (split-cut (x ∷ xs) h, read_messages, read_one_envelope, read_round, readuntil)
      (ground arith)

-- A stream of messages that the libraries carry and that fit the reader's buffer, which ends in the
-- middle of one more, yields the messages before the broken one and then fails with the error of truncation, if what there is of the
-- broken one has no line break and is within both the limit of the buffer and that of 1 MiB.
pub read_messages-truncated :
    (f : Format) (limit : ℕ) (es : List Envelope) (s : Bytes) (x : ℕ) (xs : Bytes)
    → All (Fits f limit) es
    → write_all f [] es ≡ ok s
    → All (λ b. b ≢ newline) (x ∷ xs)
    → length (x ∷ xs) ≤ limit
    → length (x ∷ xs) ≤ max_message_bytes
    → read_messages f limit max_message_bytes (length es + 1) (s ++ x ∷ xs)
      ≡ some (es, some truncated)
read_messages-truncated f limit es s x xs fits h open' buffered small =
    frames_then_tail f limit (x ∷ xs) (some truncated) 1
      (read_messages-cut f limit x xs open' buffered small) es s fits h

-- A message that `encode` accepts, and whose JSON is longer than the buffer limit of the reader,
-- ends the reader with `MessageTooLargeError`, although it keeps to the limit of 1 MiB on a line:
-- every message between 64 KiB and 1 MiB is refused.
pub read_messages-over_stream_limit :
    (f : Format) (e : Envelope) (l s : Bytes)
    → IsCarried f e
    → encode f e ≡ ok l
    → stream_limit < length (f.model_dump_json e)
    → (length l ≤ max_line_bytes)
      × (read_messages f stream_limit max_line_bytes 1 (l ++ s)
          ≡ some ([], some (message_too_large (length (f.model_dump_json e)) max_line_bytes)))
unfolding read_messages read_one_envelope read_round
read_messages-over_stream_limit f e l s c h long =
    let (same, small) = encode-ok f e l h in
    let overrun : readuntil stream_limit (l ++ s) ≡ limit_overrun (length (f.model_dump_json e)) =
      rw same (readuntil-long stream_limit (f.model_dump_json e) s c.no_newline long) in
    (small, rw (overrun, read_messages, read_one_envelope, read_round))

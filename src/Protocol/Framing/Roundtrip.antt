-- ===== src/Protocol/Framing/Roundtrip.antt =====
-- What is written on a stream is what is read from it, and every read ends
-- (src/prow/connector/protocol/framing.py).
use prow_cti.Prelude.{
  All, Bool-cases, List, Option, [], arith, eqb, inl, inr, length, none, refl, some, suc, zero, ℕ,
  ◌++◌, ◌+◌, ◌<◌, ◌∷◌, ◌≡◌, ◌≢◌, ◌≤◌,
}
use prow_cti.Protocol.Codec.{
  Format, ProtocolFailure, Result, Bytes, err, message_too_large, newline, ok, protocol_error,
  stream_closed,
}
use prow_cti.Protocol.Framing.{
  ReadUntil, Round, Split, chunk, cut_line, done, full_line, grow, incomplete, limit_overrun,
  read_messages, read_one_envelope, read_round, readuntil, retry, split,
}
use prow_cti.Protocol.Messages.{Envelope}

-- The first line of a stream that begins with a frame is that frame.
pub split-frame :
    (xs s : Bytes)
    → All (λ b. b ≢ newline) xs
    → split (xs ++ newline ∷ s) ≡ full_line (xs ++ newline ∷ []) s
unfolding split
split-frame [] s h = refl
split-frame (x ∷ xs) s h = ground (arith, split-frame xs s h.1)

-- A split loses nothing, and takes at least a byte with each line.
abbrev Fits : ℕ → Split → Type 0
Fits n (full_line l rest) = (length l + length rest ≡ n) × (0 < length l)
Fits n (cut_line l) = length l ≡ n

Fits-grow : (b n : ℕ) (r : Split) → Fits n r → Fits (suc n) (grow b r)
Fits-grow b n (full_line l rest) h = omega arith
Fits-grow b n (cut_line l) h = omega arith

Fits-split : (s : Bytes) → Fits (length s) (split s)
unfolding split
Fits-split [] = refl
Fits-split (b ∷ s) = elim (Bool-cases (eqb b newline)) [
  | inl here ↦ rw here (omega arith)
  | inr later ↦ rw later (Fits-grow b (length s) (split s) (Fits-split s))
]

-- A read of a line that `readuntil` returns.
module _ (limit : ℕ) where
  readuntil-split :
      (s l rest : Bytes) → readuntil limit s ≡ chunk l rest → split s ≡ full_line l rest
  unfolding readuntil
  readuntil-split s l rest h = by_split (split s) refl
    where
      by_split : (r : Split) → split s ≡ r → split s ≡ full_line l rest
      by_split (full_line l' rest') e = ground arith
      by_split (cut_line l') e = ground arith

  readuntil-shorter : (s l rest : Bytes) → readuntil limit s ≡ chunk l rest → length rest < length s
  readuntil-shorter s l rest h =
      let fits : Fits (length s) (full_line l rest) =
        rw (readuntil-split s l rest h) at (Fits-split s) in
      omega arith

module _ (f : Format) (limit max_line : ℕ) where
  retry-shorter :
      (s rest : Bytes) → read_round f limit max_line s ≡ retry rest → length rest < length s
  unfolding read_round
  retry-shorter s rest h = by_chunk (readuntil limit s) refl
    where
      by_chunk : (r : ReadUntil) → readuntil limit s ≡ r → length rest < length s
      by_chunk (chunk l rest') e = ground (arith, readuntil-shorter limit s l rest' e)
      by_chunk (incomplete l) e = ground arith
      by_chunk (limit_overrun n) e = ground arith

  done-shorter :
      (s rest : Bytes) (e : Envelope)
      → read_round f limit max_line s ≡ done (ok (e, rest))
      → length rest < length s
  unfolding read_round
  done-shorter s rest env h = by_chunk (readuntil limit s) refl
    where
      by_chunk : (r : ReadUntil) → readuntil limit s ≡ r → length rest < length s
      by_chunk (chunk l rest') e = ground (arith, readuntil-shorter limit s l rest' e)
      by_chunk (incomplete l) e = ground arith
      by_chunk (limit_overrun n) e = ground arith

  pub read_one-retry :
      (fuel : ℕ) (s rest : Bytes)
      → read_round f limit max_line s ≡ retry rest
      → read_one_envelope f limit max_line (suc fuel) s
        ≡ read_one_envelope f limit max_line fuel rest
  unfolding read_one_envelope
  read_one-retry fuel s rest e = rw (e, read_one_envelope)

  pub read_one-done :
      (fuel : ℕ) (s : Bytes) (r : Result (Envelope × Bytes))
      → read_round f limit max_line s ≡ done r
      → read_one_envelope f limit max_line (suc fuel) s ≡ some r
  unfolding read_one_envelope
  read_one-done fuel s r e = rw (e, read_one_envelope)

  -- With fuel beyond the length of the stream a read of one envelope ends, and what it leaves of the
  -- stream is shorter.
  abbrev Ends : ℕ → Option (Result (Envelope × Bytes)) → Type 0
  Ends n none = ⊥
  Ends n (some (ok (e, rest))) = length rest < n
  Ends n (some (err e)) = Unit

  Ends-mono : (m n : ℕ) (r : Option (Result (Envelope × Bytes))) → m ≤ n → Ends m r → Ends n r
  Ends-mono m n (some (ok (e, rest))) h g = omega arith
  Ends-mono m n (some (err e)) h g = tt
  Ends-mono m n none h g = g

  read_one_envelope-Ends :
      (fuel : ℕ) (s : Bytes)
      → length s < fuel
      → Ends (length s) (read_one_envelope f limit max_line fuel s)
  unfolding read_one_envelope
  read_one_envelope-Ends zero s h = absurd (omega arith)
  read_one_envelope-Ends (suc fuel) s h =
      by_round (read_round f limit max_line s) refl (read_one_envelope-Ends fuel)
    where
      by_round :
          (r : Round)
          → read_round f limit max_line s ≡ r
          → ((t : Bytes)
              → length t < fuel
              → Ends (length t) (read_one_envelope f limit max_line fuel t))
          → Ends (length s) (read_one_envelope f limit max_line (suc fuel) s)
      by_round (retry rest) e rec =
          let shorter : length rest < length s = retry-shorter s rest e in
          rw (read_one-retry fuel s rest e) (
            Ends-mono (length rest) (length s) (read_one_envelope f limit max_line fuel rest)
              (omega arith) (rec rest (omega arith)))
      by_round (done (ok (env, rest))) e rec =
          rw (read_one-done fuel s (ok (env, rest)) e) (done-shorter s rest env e)
      by_round (done (err failure)) e rec = rw (read_one-done fuel s (err failure) e) tt

  -- Every read of one envelope ends: it returns an envelope or raises, whatever the stream holds.
  pub read_one_envelope-total :
      (s : Bytes)
      → (r : Result (Envelope × Bytes)) × (read_one_envelope f limit max_line (suc (length s)) s
          ≡ some r)
  read_one_envelope-total s =
      by_result (read_one_envelope f limit max_line (suc (length s)) s) refl
        (read_one_envelope-Ends (suc (length s)) s (omega arith))
    where
      by_result :
          (r : Option (Result (Envelope × Bytes)))
          → read_one_envelope f limit max_line (suc (length s)) s ≡ r
          → Ends (length s) (read_one_envelope f limit max_line (suc (length s)) s)
          → (x : Result (Envelope × Bytes)) × (read_one_envelope f limit max_line (suc (length s)) s
              ≡ some x)
      by_result none e h = absurd (rw e at h)
      by_result (some x) e h = (x, e)

  pub read_messages-next :
      (fuel : ℕ) (s rest : Bytes) (env : Envelope) (es : List Envelope)
      (failure : Option ProtocolFailure)
      → read_one_envelope f limit max_line (suc (length s)) s ≡ some (ok (env, rest))
      → read_messages f limit max_line fuel rest ≡ some (es, failure)
      → read_messages f limit max_line (suc fuel) s ≡ some (env ∷ es, failure)
  unfolding read_messages
  read_messages-next fuel s rest env es failure e tail = rw (e, read_messages, tail)

  -- Reading all messages ends: with fuel beyond the length of the stream it yields a list of
  -- envelopes and stops, at a clean end of the stream or with a failure.
  pub read_messages-total :
      (fuel : ℕ) (s : Bytes)
      → length s < fuel
      → (es : List Envelope) × (failure : Option ProtocolFailure) × (read_messages f limit max_line
            fuel s
          ≡ some (es, failure))
  unfolding read_messages
  read_messages-total zero s h = absurd (omega arith)
  read_messages-total (suc fuel) s h =
      by_read (read_one_envelope f limit max_line (suc (length s)) s) refl
        (read_one_envelope-Ends (suc (length s)) s (omega arith)) (read_messages-total fuel)
    where
      by_read :
          (r : Option (Result (Envelope × Bytes)))
          → read_one_envelope f limit max_line (suc (length s)) s ≡ r
          → Ends (length s) (read_one_envelope f limit max_line (suc (length s)) s)
          → ((t : Bytes)
              → length t < fuel
              → (es : List Envelope) × (failure : Option ProtocolFailure) × (read_messages f limit
                    max_line fuel t
                  ≡ some (es, failure)))
          → (es : List Envelope) × (failure : Option ProtocolFailure) × (read_messages f limit
                max_line
                (suc fuel)
                s
              ≡ some (es, failure))
      by_read none e g rec = absurd (rw e at g)
      by_read (some (ok (env, rest))) e g rec =
          let shorter : length rest < length s = rw e at g in
          let (es, failure, tail) = rec rest (omega arith) in
          (env ∷ es, failure, read_messages-next fuel s rest env es failure e tail)
      by_read (some (err stream_closed)) e g rec = ([], none, rw (e, read_messages))
      by_read (some (err (protocol_error c m))) e g rec =
          ([], some (protocol_error c m), rw (e, read_messages))
      by_read (some (err (message_too_large n m))) e g rec =
          ([], some (message_too_large n m), rw (e, read_messages))

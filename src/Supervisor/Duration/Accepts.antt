-- ===== src/Supervisor/Duration/Accepts.antt =====
-- Which texts are accepted as durations (src/prow/connector/duration.py).
use prow_cti.Prelude.{
  All, List, Option-cases, [], ap, arith, eqb, false, if◌then◌else◌, inl, inr, length, ltb, none,
  refl, some, true, ℕ, ◌*◌, ◌++◌, ◌+◌, ◌<◌, ◌||◌, ◌∙◌, ◌∷◌, ◌≡◌, ◌≤◌,
}
use prow_cti.Supervisor.Duration.{
  IsUnicode, Unicode, amount_from, lstrip, matched, max_digits, max_seconds, overflow_error,
  parse_iso8601_duration, rstrip, scaled, scan_digits, seconds, unit_seconds, value_error,
}

abbrev pub digit_text : List ℕ → List ℕ
digit_text [] = []
digit_text (d ∷ ds) = (b'0' + d) ∷ digit_text ds

module _ (t : Unicode) where
  lstrip-append :
      (pad s : List ℕ) → All (λ c. t.is_space c ≡ true) pad → lstrip t (pad ++ s) ≡ lstrip t s
  unfolding lstrip
  lstrip-append [] s h = refl
  lstrip-append (c ∷ pad) s h = ground (arith, lstrip-append pad s h.1)

  rstrip-spaces : (pad : List ℕ) → All (λ c. t.is_space c ≡ true) pad → rstrip t pad ≡ []
  unfolding rstrip
  rstrip-spaces [] h = refl
  rstrip-spaces (c ∷ pad) h = ground (arith, rstrip-spaces pad h.1)

  rstrip-append :
      (s : List ℕ) (u : ℕ) (pad : List ℕ)
      → t.is_space u ≡ false
      → All (λ c. t.is_space c ≡ true) pad
      → rstrip t (s ++ u ∷ pad) ≡ s ++ u ∷ []
  unfolding rstrip
  rstrip-append [] u pad h g = ground (arith, rstrip-spaces pad g)
  rstrip-append (c ∷ []) u pad h g = ground (arith, rstrip-append [] u pad h g)
  rstrip-append (c ∷ d ∷ s) u pad h g = ground (arith, rstrip-append (d ∷ s) u pad h g)

  module _ (lawful : IsUnicode t) where
    scan_digits-digit_text :
        (ds : List ℕ) (u : ℕ) (s : List ℕ)
        → All (λ d. d < 10) ds
        → t.decimal u ≡ none
        → scan_digits t (digit_text ds ++ u ∷ s) ≡ (ds, u ∷ s)
    unfolding scan_digits
    scan_digits-digit_text [] u s h g = ground arith
    scan_digits-digit_text (d ∷ ds) u s h g =
        ground (arith, scan_digits-digit_text ds u s h.1 g, lawful.digit d h.0)

unit-letter : (u k : ℕ) → unit_seconds u ≡ some k → (b'a' ≤ u) × (u ≤ b'z') × (0 < k)
unfolding unit_seconds
unit-letter u k h = ground arith

lstrip-solid : (t : Unicode) (c : ℕ) (s : List ℕ) → t.is_space c ≡ false → lstrip t (c ∷ s) ≡ c ∷ s
unfolding lstrip
lstrip-solid t c s h = rw h

strip-padded :
    (t : Unicode) (pad pad' : List ℕ) (d : ℕ) (ds : List ℕ) (u : ℕ)
    → t.is_space (b'0' + d) ≡ false
    → t.is_space u ≡ false
    → All (λ c. t.is_space c ≡ true) pad
    → All (λ c. t.is_space c ≡ true) pad'
    → rstrip t (lstrip t (pad ++ (digit_text (d ∷ ds) ++ u ∷ pad'))) ≡ digit_text (d ∷ ds) ++ u ∷ []
strip-padded t pad pad' d ds u first last h h' =
    ap (rstrip t) (
      lstrip-append t pad (digit_text (d ∷ ds) ++ u ∷ pad') h
      ∙ lstrip-solid t (b'0' + d) (digit_text ds ++ u ∷ pad') first)
    ∙ rstrip-append t (digit_text (d ∷ ds)) u pad' last h'

parse-matched :
    (t : Unicode) (pad pad' : List ℕ) (d : ℕ) (ds : List ℕ) (u k : ℕ)
    → IsUnicode t
    → All (λ c. t.is_space c ≡ true) pad
    → All (λ c. t.is_space c ≡ true) pad'
    → All (λ e. e < 10) (d ∷ ds)
    → unit_seconds u ≡ some k
    → parse_iso8601_duration t (pad ++ (digit_text (d ∷ ds) ++ u ∷ pad')) ≡ scaled (d ∷ ds) k
unfolding parse_iso8601_duration
parse-matched t pad pad' d ds u k lawful h h' digits unit =
    let (low, high, _) = unit-letter u k unit in
    let letter = lawful.letter u low high in
    let stripped = strip-padded t pad pad' d ds u (lawful.digit d digits.0).1 letter.1 h h' in
    let scanned = scan_digits-digit_text t lawful (d ∷ ds) u [] digits letter.0 in
    rw (stripped, scanned) (ground (arith, unit))

-- A number of decimal digits and a unit, with white space round them, is a duration of that many
-- units; zero and a number of more than 4300 digits are a `ValueError`, and what a `timedelta`
-- cannot hold is an `OverflowError`.
pub parse_iso8601_duration-digits :
    (t : Unicode) (pad pad' : List ℕ) (d : ℕ) (ds : List ℕ) (u k : ℕ)
    → IsUnicode t
    → All (λ c. t.is_space c ≡ true) pad
    → All (λ c. t.is_space c ≡ true) pad'
    → All (λ e. e < 10) (d ∷ ds)
    → unit_seconds u ≡ some k
    → let amount = amount_from 0 (d ∷ ds) in
      parse_iso8601_duration t (pad ++ (digit_text (d ∷ ds) ++ u ∷ pad')) ≡ (
        if ltb max_digits (length (d ∷ ds)) || eqb amount 0
        then value_error
        else if ltb (amount * k) max_seconds
        then seconds (amount * k)
        else overflow_error)
parse_iso8601_duration-digits t pad pad' d ds u k lawful h h' digits unit =
    parse-matched t pad pad' d ds u k lawful h h' digits unit ∙ ground arith

scaled-seconds :
    (digits : List ℕ) (k s : ℕ)
    → scaled digits k ≡ seconds s
    → (0 < amount_from 0 digits) × (s ≡ amount_from 0 digits * k) × (s < max_seconds)
scaled-seconds digits k s h = ground arith

matched-seconds :
    (digits rest : List ℕ) (s : ℕ)
    → matched digits rest ≡ seconds s
    → (u : ℕ) × (k : ℕ) × (unit_seconds u ≡ some k) × (scaled digits k ≡ seconds s)
matched-seconds [] rest s h = cc
matched-seconds (d ∷ ds) [] s h = cc
matched-seconds (d ∷ ds) (u ∷ tail) s h = elim (Option-cases (unit_seconds u)) [
  | inl e ↦ absurd (ground (arith, e))
  | inr (k, e) ↦ (u, k, e, ground (arith, e))
]

-- Whatever text is accepted, its duration is a positive number of whole seconds, minutes, hours or
-- days, and within the range of a `timedelta`.
pub parse_iso8601_duration-positive :
    (t : Unicode) (value : List ℕ) (s : ℕ)
    → parse_iso8601_duration t value ≡ seconds s
    → (0 < s)
      × (s < max_seconds)
      × ((n : ℕ) × (u : ℕ) × (k : ℕ) × (unit_seconds u ≡ some k) × (s ≡ n * k))
unfolding parse_iso8601_duration
parse_iso8601_duration-positive t value s h =
    let (digits, rest) = scan_digits t (rstrip t (lstrip t value)) in
    let (u, k, unit, scale) = matched-seconds digits rest s h in
    let (positive, product, small) = scaled-seconds digits k s scale in
    let (_, _, whole) = unit-letter u k unit in
    (grind arith, small, (amount_from 0 digits, u, k, unit, product))

-- ===== src/Supervisor/Duration.antt =====
-- Schedule durations (src/prow/connector/duration.py). A text is the list of its code points, and a
-- `timedelta` the number of its seconds.
use prow_cti.Prelude.{
  Bool, List, Option, [], eqb, false, if◌then◌else◌, leb, length, ltb, none, some, true, ℕ, ◌*◌,
  ◌+◌, ◌<◌, ◌^◌, ◌∷◌, ◌≡◌, ◌≤◌,
}
pub mod Accepts

-- Python's tables of decimal digits and of white space, beyond ASCII.
pub record Unicode : Type 0 where
  pub decimal : ℕ → Option ℕ
  pub is_space : ℕ → Bool

-- What the tables say of the ASCII characters that matter here.
pub record IsUnicode (t : Unicode) : Type 0 where
  pub digit : (d : ℕ) → d < 10 → (t.decimal (b'0' + d) ≡ some d) × (t.is_space (b'0' + d) ≡ false)
  pub letter : (c : ℕ) → b'a' ≤ c → c ≤ b'z' → (t.decimal c ≡ none) × (t.is_space c ≡ false)

pub data DurationResult : Type 0 where
  seconds : ℕ → DurationResult
  value_error overflow_error : DurationResult

-- `[smhd]` and the length of the unit.
unfoldable pub unit_seconds : ℕ → Option ℕ
unit_seconds c =
    if eqb c b's'
    then some 1
    else if eqb c b'm'
    then some 60
    else if eqb c b'h'
    then some 3600
    else if eqb c b'd'
    then some 86400
    else none

-- `$` matches at the end, and before a line break at the end.
abbrev at_end : List ℕ → Bool
at_end [] = true
at_end (c ∷ []) = eqb c 10
at_end (c ∷ d ∷ t) = false

-- `timedelta.max` has 999999999 days.
abbrev pub max_seconds : ℕ
max_seconds = 10 ^ 9 * 86400

-- The most digits that `int` converts.
abbrev pub max_digits : ℕ
max_digits = 4300

abbrev pub amount_from : ℕ → List ℕ → ℕ
amount_from n [] = n
amount_from n (d ∷ ds) = amount_from (n * 10 + d) ds

module _ (t : Unicode) where
  -- `value.strip()`
  unfoldable pub lstrip : List ℕ → List ℕ
  lstrip [] = []
  lstrip (c ∷ s) = let rest = lstrip s in if t.is_space c then rest else c ∷ s

  abbrev keep_unless_last : ℕ → List ℕ → List ℕ
  keep_unless_last c [] = if t.is_space c then [] else c ∷ []
  keep_unless_last c (d ∷ s) = c ∷ d ∷ s

  unfoldable pub rstrip : List ℕ → List ℕ
  rstrip [] = []
  rstrip (c ∷ s) = keep_unless_last c (rstrip s)

  -- `\d+`, greedy: the values of the digits in front, and the rest.
  unfoldable pub scan_digits : List ℕ → List ℕ × List ℕ
  scan_digits [] = ([], [])
  scan_digits (c ∷ s) = elim (t.decimal c) [
    | none ↦ ([], c ∷ s)
    | some d ↦ (d ∷ (scan_digits s).0, (scan_digits s).1)
  ]

abbrev scaled : List ℕ → ℕ → DurationResult
scaled digits unit =
    let amount = amount_from 0 digits in
    if ltb max_digits (length digits)
    then value_error
    else if leb amount 0
    then value_error
    else if leb max_seconds (amount * unit)
    then overflow_error
    else seconds (amount * unit)

abbrev matched : List ℕ → List ℕ → DurationResult
matched [] rest = value_error
matched (d ∷ ds) [] = value_error
matched (d ∷ ds) (u ∷ tail) = elim (unit_seconds u) [
  | none ↦ value_error
  | some unit ↦ if at_end tail then scaled (d ∷ ds) unit else value_error
]

-- `parse_iso8601_duration`
unfoldable pub parse_iso8601_duration : Unicode → List ℕ → DurationResult
parse_iso8601_duration t value =
    let (digits, rest) = scan_digits t (rstrip t (lstrip t value)) in matched digits rest

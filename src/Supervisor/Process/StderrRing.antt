-- ===== src/Supervisor/Process/StderrRing.antt =====
-- `_StderrRingBuffer` of src/prow/connector/process.py: the latest lines of stderr, bounded by
-- their number and by their size in bytes.
use prow_cti.Prelude.{
  Bool-cases, List, String, [], ap, arith, if◌then◌else◌, inl, inr, length, length-append, ltb,
  refl, ℕ, ◌++◌, ◌+◌, ◌-◌, ◌<◌, ◌||◌, ◌∷◌, ◌≡◌, ◌≤◌, ◌⊎◌,
}
use Prim.Native.String.{len}

-- `_StderrRingBuffer`
pub record StderrRing : Type 0 where
  pub lines : List String
  pub max_lines : ℕ
  pub max_bytes : ℕ
  pub approx_bytes : ℕ

-- `len(line.encode("utf-8")) + 1`
abbrev pub cost : String → ℕ
cost line = len line + 1

-- The loop of `_trim`, over the lines and the byte count.
unfoldable pub trim : ℕ → ℕ → List String → ℕ → List String × ℕ
trim max_lines max_bytes [] used = ([], used)
trim max_lines max_bytes (old ∷ lines) used =
    let rest = trim max_lines max_bytes lines (used - cost old) in
    if ltb max_lines (length (old ∷ lines)) || ltb max_bytes used then rest else (old ∷ lines, used)

-- `append`
unfoldable pub append : StderrRing → String → StderrRing
append r line =
    let (lines, used) =
      trim r.max_lines r.max_bytes (r.lines ++ line ∷ []) (r.approx_bytes + cost line) in
    record r { lines = lines; approx_bytes = used }

abbrev pub total : List String → ℕ
total [] = 0
total (line ∷ lines) = cost line + total lines

total-append : (xs ys : List String) → total (xs ++ ys) ≡ total xs + total ys
total-append [] ys = omega arith
total-append (x ∷ xs) ys = omega (arith, total-append xs ys)

-- The buffer keeps to both bounds, and its count of bytes is that of its lines.
pub record IsBounded (r : StderrRing) : Type 0 where
  pub counted : r.approx_bytes ≡ total r.lines
  pub few : length r.lines ≤ r.max_lines
  pub small : r.approx_bytes ≤ r.max_bytes

module _ (max_lines max_bytes : ℕ) where
  trim_bounds :
      (lines : List String) (used : ℕ)
      → used ≡ total lines
      → ((trim max_lines max_bytes lines used).1 ≡ total (trim max_lines max_bytes lines used).0)
        × (length (trim max_lines max_bytes lines used).0 ≤ max_lines)
        × ((trim max_lines max_bytes lines used).1 ≤ max_bytes)
  unfolding trim
  trim_bounds [] used h = omega arith
  trim_bounds (old ∷ lines) used h =
      ground (arith, trim_bounds lines (used - cost old) (omega arith))

  -- No longer suffix of the lines would fit.
  trim_longest :
      (lines : List String) (used : ℕ) (dropped kept : List String)
      → used ≡ total lines
      → lines ≡ dropped ++ kept
      → length kept ≤ max_lines
      → total kept ≤ max_bytes
      → length kept ≤ length (trim max_lines max_bytes lines used).0
  unfolding trim
  trim_longest [] used [] kept h e few small = omega (arith, ap length e)
  trim_longest [] used (d ∷ ds) kept h e few small = cc
  trim_longest (old ∷ lines) used [] kept h e few small = ground (arith, ap length e, ap total e)
  trim_longest (old ∷ lines) used (d ∷ ds) kept h e few small =
      let e' : lines ≡ ds ++ kept = cc in
      ground (
        arith,
        ap length e',
        length-append ds kept,
        trim_longest lines (used - cost old) ds kept (omega arith) e' few small,
      )

  trim_maximal :
      (lines : List String) (used : ℕ) (dropped kept : List String)
      → used ≡ total lines
      → lines ≡ dropped ++ kept
      → (length kept ≤ length (trim max_lines max_bytes lines used).0)
        ⊎ (max_lines < length kept)
        ⊎ (max_bytes < total kept)
  trim_maximal lines used dropped kept h e =
      ground (arith, trim_longest lines used dropped kept h e)

  trim_suffix :
      (lines : List String) (used : ℕ)
      → (dropped : List String) × (lines ≡ dropped ++ (trim max_lines max_bytes lines used).0)
  unfolding trim
  trim_suffix [] used = ([], refl)
  trim_suffix (old ∷ lines) used =
      elim (Bool-cases (ltb max_lines (length (old ∷ lines)) || ltb max_bytes used)) [
        | inl full ↦
            let (dropped, same) = trim_suffix lines (used - cost old) in
            (old ∷ dropped, rw full (ap (◌∷◌ old) same))
        | inr fits ↦ ([], rw fits)
      ]

-- Appending a line keeps the buffer within its bounds. What it then holds ends the old lines with
-- the new one behind them, and an ending of these that is longer has too many lines or too many bytes.
pub append-IsBounded :
    (r : StderrRing) (line : String) (dropped kept : List String)
    → IsBounded r
    → r.lines ++ line ∷ [] ≡ dropped ++ kept
    → IsBounded (append r line)
      × ((gone : List String) × (r.lines ++ line ∷ [] ≡ gone ++ (append r line).lines))
      × ((length kept ≤ length (append r line).lines)
          ⊎ (r.max_lines < length kept)
          ⊎ (r.max_bytes < total kept))
unfolding append
append-IsBounded r line dropped kept h e =
    let used = r.approx_bytes + cost line in
    let all' = r.lines ++ line ∷ [] in
    let counted : used ≡ total all' = omega (arith, total-append r.lines (line ∷ []), h.counted) in
    let (sum, few, small) = trim_bounds r.max_lines r.max_bytes all' used counted in
    (
      record { counted = sum; few = few; small = small },
      trim_suffix r.max_lines r.max_bytes all' used,
      trim_maximal r.max_lines r.max_bytes all' used dropped kept counted e,
    )

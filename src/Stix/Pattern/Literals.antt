-- ===== src/Stix/Pattern/Literals.antt =====
-- String literals of STIX patterns as their grammar has them, and the texts of src/prow/connectors.
use prow_cti.Prelude.{
  Bool, Bool-cases, Option, String, ap, eqb, eqb_iff, false, if◌then◌else◌, inl, inr, none, refl,
  some, true, ◌||◌, ◌≡◌,
}
use prow_cti.Prelude.Text.{concat}
use prow_cti.Stix.Pattern.{replace, stix_pattern_quote}
use Prim.Native.Char.{Char, code}
use text.Mathlib.TextEquality.{Char-path}

abbrev onto : Char → Option (String × String) → Option (String × String)
onto c none = none
onto c (some (s, rest)) = some (String.◌∷◌ c s, rest)

-- What follows the opening quote of a literal: the text that the literal stands for, and what stands
-- behind its closing quote. A backslash comes before a quote or a backslash, and nowhere else; `pending`
-- is whether the last code point was one.
unfoldable pub read_literal : Bool → String → Option (String × String)
read_literal pending String.[] = none
read_literal true (String.◌∷◌ c s) =
    let rest = read_literal false s in
    if eqb (code c) 39 || eqb (code c) 92 then onto c rest else none
read_literal false (String.◌∷◌ c s) =
    let plain = onto c (read_literal false s) in
    let escaped = read_literal true s in
    if eqb (code c) 39 then some (String.[], s) else if eqb (code c) 92 then escaped else plain

-- Quoting one code point that needs none.
stix_pattern_quote-plain :
    (c : Char) (v : String)
    → eqb (code c) 39 ≡ false
    → eqb (code c) 92 ≡ false
    → stix_pattern_quote (String.◌∷◌ c v) ≡ String.◌∷◌ c (stix_pattern_quote v)
unfolding stix_pattern_quote replace
stix_pattern_quote-plain c v e e' = rw (e', e)

-- What `_stix_pattern_quote` writes between quotes is a literal that stands for the value as it was, and
-- it ends at its closing quote and no earlier.
pub read_literal-quote :
    (v rest : String)
    → read_literal false (concat (stix_pattern_quote v) (concat "'" rest)) ≡ some (v, rest)
unfolding read_literal stix_pattern_quote replace
read_literal-quote String.[] rest = refl
read_literal-quote (String.◌∷◌ c v) rest = elim (Bool-cases (eqb (code c) 39)) [
  | inl e ↦
      rw (Char-path c "'" ((eqb_iff (code c) 39).0 e)) (ap (onto "'") (read_literal-quote v rest))
  | inr e ↦ elim (Bool-cases (eqb (code c) 92)) [
    | inl e' ↦
        rw (Char-path c "\\" ((eqb_iff (code c) 92).0 e'))
          (ap (onto "\\") (read_literal-quote v rest))
    | inr e' ↦
        rw (stix_pattern_quote-plain c v e e', e, e') (ap (onto c) (read_literal-quote v rest))
  ]
]

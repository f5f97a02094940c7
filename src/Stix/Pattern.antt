-- ===== src/Stix/Pattern.antt =====
-- The text of patterns: `_stix_pattern_quote` of the feed connectors (src/prow/connectors).
pub mod Literals
use prow_cti.Prelude.{String, eqb, if◌then◌else◌, ℕ}
use prow_cti.Prelude.Text.{concat}
use Prim.Native.Char.{code}

-- `text.replace(old, new)` for an `old` of one code point.
unfoldable pub replace : ℕ → String → String → String
replace old new String.[] = String.[]
replace old new (String.◌∷◌ c s) =
    let rest = replace old new s in if eqb (code c) old then concat new rest else String.◌∷◌ c rest

-- `_stix_pattern_quote`
unfoldable pub stix_pattern_quote : String → String
stix_pattern_quote value = replace 39 "\\'" (replace 92 "\\\\" value)

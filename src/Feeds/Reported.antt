-- ===== src/Feeds/Reported.antt =====
-- What the connectors of abuse.ch report of an entry (src/prow/connectors: threatfox, urlhaus and
-- malwarebazaar).
use prow_cti.Db.StixFields.{Timestamp}
use prow_cti.Feeds.AbuseCh.{comparison, feed_indicator, plain_relationship}
use prow_cti.Feeds.Fetch.{done}
use prow_cti.Feeds.Fetch.Steps.{done_injective}
use prow_cti.Prelude.{List, Option, String, arith, false, none, refl, some, sym, ℕ, ◌∙◌, ◌∷◌, ◌≡◌}
use prow_cti.Prelude.Dict.{Dict}
use prow_cti.Prelude.Int.{ℤ}
use prow_cti.Prelude.Text.{concat}
use prow_cti.Stix.Helpers.{StixLib, indicator, relationship}
use prow_cti.Stix.Objects.{
  Indicator, Relationship, StixObject, file_object, indicator_object, ref_of, relationship_object,
  value_object,
}
use prow_cti.Stix.Pattern.{stix_pattern_quote}
use prow_cti.Stix.Pattern.Literals.{read_literal, read_literal-quote}
pub mod Connectors
pub mod MalwareBazaar
pub mod ThreatFox
pub mod UrlHaus

abbrev pub first_hash : Option (Dict String) → Option (String × String)
first_hash (some ((algo, hash) ∷ hashes)) = some (concat "file:hashes.'" (concat algo "'"), hash)
first_hash _ = none

-- The property of an observable that tells it apart, and its value: for a file the first hash.
abbrev pub property_of : StixObject → Option (String × String)
property_of (value_object sco_type id value) = some (concat sco_type ":value", value)
property_of (file_object f) = first_hash f.hashes
property_of _ = none

abbrev pub IsComparison : StixObject → String → Type 0
IsComparison obs p =
    (path value : String) × (property_of obs ≡ some (path, value)) × (p ≡ comparison path value)

-- A pattern that compares the property of an observable with a literal: read by the grammar, the literal
-- is the value of the observable, and it ends where the pattern does.
abbrev pub IsPatternOf : StixObject → String → Type 0
IsPatternOf obs p =
    (path value text : String) × (property_of obs ≡ some (path, value))
    × (p ≡ concat "[" (concat path (concat " = '" text)))
    × (read_literal false text ≡ some (value, "]"))

-- An observable, the indicator of it, and the relationship that says so; what follows is of the family.
abbrev pub IsReported : List StixObject → Type 0
IsReported (obs ∷ indicator_object i ∷ relationship_object r ∷ family) =
    IsPatternOf obs i.pattern
    × (r.source_ref ≡ i.common.id)
    × (r.relationship_type ≡ "based-on")
    × (r.target_ref ≡ ref_of obs)
IsReported _ = ⊥

IsComparison-IsPatternOf : (obs : StixObject) (p : String) → IsComparison obs p → IsPatternOf obs p
IsComparison-IsPatternOf obs p (path, value, q, e) =
    (path, value, concat (stix_pattern_quote value) "']", q, e, read_literal-quote value "]")

feed_indicator-pattern :
    (lib : StixLib) (n : ℕ) (name pattern : String) (at : Timestamp) (c : ℤ) (ind : Indicator)
    → feed_indicator lib n name pattern at c ≡ done ind
    → ind.pattern ≡ pattern
unfolding indicator
feed_indicator-pattern lib n name pattern at c ind h = ground (arith)

-- A relationship that says what an indicator is based on.
plain_relationship-fields :
    (lib : StixLib) (n : ℕ) (from kind to : String) (r : Relationship)
    → plain_relationship lib n from kind to ≡ done r
    → (r.source_ref ≡ from) × (r.relationship_type ≡ kind) × (r.target_ref ≡ to)
unfolding relationship
plain_relationship-fields lib n from kind to r h = rw (sym (done_injective h)) (refl, refl, refl)

-- The three objects of an entry, with those of the family behind them.
pub objects-IsReported :
    (lib : StixLib) (n m : ℕ) (name pattern : String) (at : Timestamp) (c : ℤ) (obs : StixObject)
    (ind : Indicator) (rel : Relationship) (family : List StixObject)
    → IsComparison obs pattern
    → feed_indicator lib n name pattern at c ≡ done ind
    → plain_relationship lib m ind.common.id "based-on" (ref_of obs) ≡ done rel
    → IsReported (obs ∷ indicator_object ind ∷ relationship_object rel ∷ family)
objects-IsReported lib n m name pattern at c obs ind rel family (path, value, q, e) hi hr =
    let same = feed_indicator-pattern lib n name pattern at c ind hi in
    let fields = plain_relationship-fields lib m _ _ _ rel hr in
    (
      IsComparison-IsPatternOf obs ind.pattern (path, value, q, same ∙ e),
      fields.0,
      fields.1,
      fields.2,
    )

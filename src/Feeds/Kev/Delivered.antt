-- ===== src/Feeds/Kev/Delivered.antt =====
-- What the KEV connector emits and what it keeps (src/prow/connectors/kev/connector.py).
use prow_cti.Db.StixFields.{Timestamp}
use prow_cti.Feeds.Fetch.{Feed, build_objects, done, feed_format_error, filled, or_raise, text_of}
use prow_cti.Feeds.Fetch.Steps.{bind-done, build_objects-cons, done_injective, or_raise-done}
use prow_cti.Feeds.Kev.{
  build_indicator, build_relationship, build_vulnerability, cve_and_date, objects_for_entry,
}
use prow_cti.Json.{Fields, Json, get, str}
use prow_cti.Prelude.{
  List, Option, String, [], ap, arith, refl, some, suc, sym, ℕ, ◌*◌, ◌++◌, ◌+◌, ◌∙◌, ◌∷◌, ◌≡◌,
}
use prow_cti.Stix.Helpers.{StixLib, indicator, relationship}
use prow_cti.Stix.Objects.{
  Identity, Indicator, Relationship, StixObject, Vulnerability, indicator_object,
  relationship_object, vulnerability_object,
}
use mathlib.Core.Option.{some-injective}

-- An entry of the feed and its three objects: a vulnerability with the name of the entry, an indicator
-- that holds from the date of the vulnerability on, and the relationship of the one to the other.
abbrev pub IsEntry : Fields → Vulnerability → Indicator → Relationship → Type 0
IsEntry e v i r =
    (get e "cveID" ≡ some (str v.name))
    × (i.valid_from ≡ v.common.created)
    × (r.source_ref ≡ i.common.id)
    × (r.relationship_type ≡ "indicates")
    × (r.target_ref ≡ v.common.id)

-- The objects are those of the entries, in their order and no others.
abbrev pub Covers : List Fields → List StixObject → Type 0
Covers [] [] = Unit
Covers (e ∷ es) (vulnerability_object v ∷ indicator_object i ∷ relationship_object r ∷ os) =
    IsEntry e v i r × Covers es os
Covers _ _ = ⊥

filled-str :
    (strip : String → String) (v : Option Json) (s : String)
    → filled strip v ≡ some s
    → v ≡ some (str s)
filled-str strip v s h = ground (arith)

module _ {Body : Type 0} (lib : StixLib) (source : Feed Body) where
  cve_and_date-name :
      (e : Fields) (found : String × Timestamp)
      → cve_and_date lib source e ≡ done found
      → get e "cveID" ≡ some (str found.0)
  cve_and_date-name e found h =
      let (name, named, h') =
        bind-done (or_raise feed_format_error (filled source.strip (get e "cveID"))) _ found h in
      let (raw, _, h'') =
        bind-done (or_raise feed_format_error (text_of (get e "dateAdded"))) _ found h' in
      let (at, _, end') =
        bind-done (or_raise feed_format_error (source.parse_date raw)) _ found h'' in
      filled-str source.strip (get e "cveID") name (or_raise-done feed_format_error _ name named)
      ∙ ap (λ (p : String × Timestamp). some (str p.0)) (done_injective end')

  module _ (me : Identity) where
    build_vulnerability-fields :
        (n : ℕ) (e : Fields) (v : Vulnerability)
        → build_vulnerability lib source me n e ≡ done v
        → (found : String × Timestamp) × (cve_and_date lib source e ≡ done found)
          × (v.name ≡ found.0)
          × (v.common.created ≡ found.1)
    unfolding build_vulnerability
    build_vulnerability-fields n e v h =
        let (found, q, h') = bind-done (cve_and_date lib source e) _ v h in
        (
          found,
          q,
          ap (λ (w : Vulnerability). w.name) (sym (done_injective h')),
          ap (λ (w : Vulnerability). w.common.created) (sym (done_injective h')),
        )

    build_indicator-fields :
        (n : ℕ) (e : Fields) (i : Indicator)
        → build_indicator lib source me n e ≡ done i
        → (found : String × Timestamp) × (cve_and_date lib source e ≡ done found)
          × (i.valid_from ≡ found.1)
    unfolding build_indicator indicator
    build_indicator-fields n e i h =
        let (found, q, h') = bind-done (cve_and_date lib source e) _ i h in
        (found, q, ap (λ (w : Indicator). w.valid_from) (sym (done_injective h')))

    build_relationship-fields :
        (n : ℕ) (i : Indicator) (v : Vulnerability) (r : Relationship)
        → build_relationship lib source me n i v ≡ done r
        → (r.source_ref ≡ i.common.id)
          × (r.relationship_type ≡ "indicates")
          × (r.target_ref ≡ v.common.id)
    unfolding build_relationship relationship
    build_relationship-fields n i v r h = rw (sym (done_injective h)) (refl, refl, refl)

    objects_for_entry-IsEntry :
        (n : ℕ) (e : Fields) (os more : List StixObject) (es : List Fields)
        → objects_for_entry lib source me n e ≡ done os
        → Covers es more
        → Covers (e ∷ es) (os ++ more)
    unfolding objects_for_entry
    objects_for_entry-IsEntry n e os more es h c =
        let (v, hv, h1) = bind-done (build_vulnerability lib source me (3 * n + 1) e) _ os h in
        let (i, hi, h2) = bind-done (build_indicator lib source me (3 * n + 2) e) _ os h1 in
        let (r, hr, h3) = bind-done (build_relationship lib source me (3 * n + 3) i v) _ os h2 in
        let (found, q, name, created) = build_vulnerability-fields _ e v hv in
        let same_end = build_relationship-fields _ i v r hr in
        let (found', q', from) = build_indicator-fields _ e i hi in
        let same : found ≡ found' = done_injective (sym q ∙ q') in
        rw (sym (done_injective h3)) (
          (
            cve_and_date-name e found q ∙ ap (λ s. some (str s)) (sym name),
            from ∙ sym (ap (λ p. p.1) same) ∙ sym created,
            same_end.0,
            same_end.1,
            same_end.2,
          ),
          c,
        )

    pub build_objects-Covers :
        (es : List Fields) (n : ℕ) (os : List StixObject)
        → build_objects (objects_for_entry lib source me) source.is_cancelled n es ≡ done (some os)
        → Covers es os
    unfolding build_objects
    build_objects-Covers [] n os h = rw (sym (some-injective _ _ (done_injective h))) tt
    build_objects-Covers (e ∷ es) n os h =
        let (first, more, made, others, joined) = build_objects-cons _ _ e es n os h in
        rw (sym joined) (
          objects_for_entry-IsEntry n e first more es made
            (build_objects-Covers es (suc n) more others))

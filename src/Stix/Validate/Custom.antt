-- ===== src/Stix/Validate/Custom.antt =====
-- Which objects of custom types are accepted (src/prow/stix/_validate.py).
use prow_cti.Json.{Fields, Json, arr, bool, float, get, int, is_text, non_empty, null, obj, str}
use prow_cti.Prelude.{
  All, Bool, Bool-cases, List, Option, String, [], ap, append_assoc, arith, eq_iff, eqb, false, inl,
  inr, none, refl, some, sym, true, ℕ, ◌&&◌, ◌++◌, ◌==◌, ◌↔◌, ◌∙◌, ◌∷◌, ◌≡◌,
}
use prow_cti.Prelude.Text.{codes}
use prow_cti.Stix.Validate.{
  Schema, by_type, check_custom, check_identifier, check_spec, custom_type_minimal, is_blank_text,
  is_stix_id, not_blank, starts_with, validate_stix_object, verdict,
}
use prow_cti.Stix.Validate.Accepts.{accepted-append, is_accepted}
use prow_cti.Stix.Validate.Form.{
  All-all_of, IsIdentifier, all_of-All, both_true, is_stix_id-IsIdentifier,
}
use mathlib.Core.Path.{subst}

starts_with-append : (p s : List ℕ) → starts_with p s ≡ true → (rest : List ℕ) × (s ≡ p ++ rest)
unfolding starts_with
starts_with-append [] s h = (s, refl)
starts_with-append (c ∷ p) [] h = absurd (cc h)
starts_with-append (c ∷ p) (d ∷ s) h =
    let (same, more) = both_true (eqb c d) (starts_with p s) h in
    let here : d ≡ c = ground (arith, same) in
    let (rest, e) = starts_with-append p s more in (rest, cc (here, e))

append-starts_with : (p rest : List ℕ) → starts_with p (p ++ rest) ≡ true
unfolding starts_with
append-starts_with [] rest = refl
append-starts_with (c ∷ p) rest =
    let same : eqb c c ≡ true = ground arith in rw (same, append-starts_with p rest) refl

module _ (sc : Schema) where
  -- Not only white space.
  abbrev pub HasText : String → Type 0
  HasText s = ¬ All (λ c. sc.is_space c ≡ true) (codes s)

  blank-HasText : (s : String) → is_blank_text sc s ≡ false ↔ HasText s
  blank-HasText s = (
    λ h all'. cc (h, All-all_of sc.is_space (codes s) all'),
    λ h. elim (Bool-cases (is_blank_text sc s)) [
      | inl e ↦ absurd (h (all_of-All sc.is_space (codes s) e))
      | inr e ↦ e
    ],
  )

  -- The text is a text that is not blank.
  not_blank-some :
      (v : Option Json) (s : String) → not_blank sc v ≡ some s ↔ ((v ≡ some (str s)) × HasText s)
  not_blank-some v s = (taken v, λ (e, h). ground (arith, e, (blank-HasText s).1 h))
    where
      taken : (v : Option Json) → not_blank sc v ≡ some s → (v ≡ some (str s)) × HasText s
      taken (some (str t)) h = elim (Bool-cases (is_blank_text sc t)) [
        | inl e ↦ absurd (ground (arith, e, h))
        | inr e ↦
            let same : t ≡ s = ground (arith, e, h) in
            (ap (λ u. some (str u)) same, subst HasText same ((blank-HasText t).0 e))
      ]
      taken none h = absurd (cc h)
      taken (some null) h = absurd (cc h)
      taken (some (bool b)) h = absurd (cc h)
      taken (some (int n)) h = absurd (cc h)
      taken (some (float f)) h = absurd (cc h)
      taken (some (arr is)) h = absurd (cc h)
      taken (some (obj o)) h = absurd (cc h)

  -- The text is an identifier that begins with the type and two dashes.
  abbrev pub IsNamed : String → String → Type 0
  IsNamed stix_type id =
      IsIdentifier sc id × (rest : List ℕ) × (codes id ≡ codes stix_type ++ b'-' ∷ b'-' ∷ rest)

  identifier-IsNamed :
      (stix_type : String) (m : Option String)
      → is_accepted (check_identifier sc stix_type m) ≡ true
        ↔ ((id : String) × (m ≡ some id) × IsNamed stix_type id)
  identifier-IsNamed stix_type m = (
    given m,
    λ (id, e, (form, rest, begins)). rw e (
        let prefix = codes stix_type ++ b'-' ∷ b'-' ∷ [] in
        let known = (is_stix_id-IsIdentifier sc id).1 form in
        let right : starts_with prefix (codes id) ≡ true =
          ap (starts_with prefix)
            (begins ∙ sym (append_assoc (codes stix_type) (b'-' ∷ b'-' ∷ []) rest))
          ∙ append-starts_with prefix rest in
        rw (known, right) refl),
  )
    where
      given :
          (m : Option String)
          → is_accepted (check_identifier sc stix_type m) ≡ true
          → (id : String) × (m ≡ some id) × IsNamed stix_type id
      given none h = absurd (cc h)
      given (some id) h =
          let prefix = codes stix_type ++ b'-' ∷ b'-' ∷ [] in
          let known : is_stix_id sc id ≡ true = ground arith in
          let right : starts_with prefix (codes id) ≡ true = ground arith in
          let (rest, e) = starts_with-append prefix (codes id) right in
          (
            id,
            refl,
            (
              (is_stix_id-IsIdentifier sc id).0 known,
              rest,
              e ∙ append_assoc (codes stix_type) (b'-' ∷ b'-' ∷ []) rest,
            ),
          )

  is_text-str : (text : String) (v : Option Json) → is_text text v ≡ true → v ≡ some (str text)
  is_text-str text none h = absurd (cc h)
  is_text-str text (some (str s)) h = ap (λ t. some (str t)) ((eq_iff s text).0 h)
  is_text-str text (some null) h = absurd (cc h)
  is_text-str text (some (bool b)) h = absurd (cc h)
  is_text-str text (some (int n)) h = absurd (cc h)
  is_text-str text (some (float f)) h = absurd (cc h)
  is_text-str text (some (arr is)) h = absurd (cc h)
  is_text-str text (some (obj o)) h = absurd (cc h)

  spec-accepted : (v : Option Json) → is_accepted (check_spec sc v) ≡ true ↔ (v ≡ some (str "2.1"))
  spec-accepted v = (λ h. is_text-str "2.1" v (ground (arith, h)), λ e. rw e refl)

  -- What an object of a custom type has to be.
  abbrev pub IsCustom : Fields → Type 0
  IsCustom o =
      (stix_type id : String) × (get o "type" ≡ some (str stix_type))
      × HasText stix_type
      × (get o "id" ≡ some (str id))
      × HasText id
      × IsNamed stix_type id
      × (get o "spec_version" ≡ some (str "2.1"))

  accepted-IsCustom : (o : Fields) → is_accepted (custom_type_minimal sc o) ≡ true ↔ IsCustom o
  unfolding custom_type_minimal
  accepted-IsCustom o = (
    λ h. by_type_text (not_blank sc (get o "type")) refl h,
    λ (stix_type, id, t, text, i, full, named, spec).
        let typed = (not_blank-some (get o "type") stix_type).1 (t, text) in
        let found = (not_blank-some (get o "id") id).1 (i, full) in
        let known =
          (identifier-IsNamed stix_type (not_blank sc (get o "id"))).1 (id, found, named) in
        rw typed (
          accepted-append (check_identifier sc stix_type (not_blank sc (get o "id")))
            (check_spec sc (get o "spec_version"))
          ∙ rw (known, (spec-accepted (get o "spec_version")).1 spec) refl),
  )
    where
      by_type_text :
          (m : Option String)
          → not_blank sc (get o "type") ≡ m
          → is_accepted (check_custom sc o m) ≡ true
          → IsCustom o
      by_type_text none e h = absurd (cc h)
      by_type_text (some stix_type) e h =
          let identifier = check_identifier sc stix_type (not_blank sc (get o "id")) in
          let (named, spec) =
            both_true (is_accepted identifier) (is_accepted (check_spec sc (get o "spec_version")))
              (sym (accepted-append identifier (check_spec sc (get o "spec_version"))) ∙ h) in
          let (id, found, is_named) =
            (identifier-IsNamed stix_type (not_blank sc (get o "id"))).0 named in
          let (t, text) = (not_blank-some (get o "type") stix_type).0 e in
          let (i, full) = (not_blank-some (get o "id") id).0 found in
          (stix_type, id, t, text, i, full, is_named, (spec-accepted (get o "spec_version")).0 spec)

  by_custom_type :
      (allow : Bool) (o : Fields) (v : Option Json)
      → get o "type" ≡ v
      → ((stix_type : String) → v ≡ some (str stix_type) → sc.validators stix_type ≡ none)
      → is_accepted (by_type sc allow o (non_empty v))
        ≡ (allow && is_accepted (custom_type_minimal sc o))
  unfolding custom_type_minimal
  by_custom_type allow o (some (str t)) e unknown = elim (Bool-cases (t == "")) [
    | inl empty ↦
        let typed : get o "type" ≡ some (str "") =
          e ∙ ap (λ u. some (str u)) ((eq_iff t "").0 empty) in
        rw (empty, typed) (ground arith)
    | inr filled' ↦ rw (filled', unknown t refl) (ground (arith, e))
  ]
  by_custom_type allow o none e unknown = ground (arith, e)
  by_custom_type allow o (some null) e unknown = ground (arith, e)
  by_custom_type allow o (some (bool b)) e unknown = ground (arith, e)
  by_custom_type allow o (some (int n)) e unknown = ground (arith, e)
  by_custom_type allow o (some (float f)) e unknown = ground (arith, e)
  by_custom_type allow o (some (arr is)) e unknown = ground (arith, e)
  by_custom_type allow o (some (obj p)) e unknown = ground (arith, e)

  -- An object that is no bundle, and whose type, if it is a text, has no schema, is accepted exactly if
  -- custom types are allowed and it has a type and an id, which are texts that are not only white
  -- space, and the version 2.1; and the id begins with the type and two dashes and is an identifier:
  -- a prefix of word characters, dots and dashes, two dashes and a UUID with a version digit from 1 to
  -- 5 and a variant digit of 8, 9, a or b, up to the end or to a line break at the end.
  pub validate_stix_object-IsCustom :
      (allow : Bool) (o : Fields)
      → is_text "bundle" (get o "type") ≡ false
      → ((stix_type : String)
          → get o "type" ≡ some (str stix_type)
          → sc.validators stix_type ≡ none)
      → is_accepted (validate_stix_object sc allow o) ≡ true ↔ ((allow ≡ true) × IsCustom o)
  unfolding validate_stix_object verdict
  validate_stix_object-IsCustom allow o other unknown =
      let same : is_accepted (validate_stix_object sc allow o)
          ≡ (allow && is_accepted (custom_type_minimal sc o)) =
        rw other (by_custom_type allow o (get o "type") refl unknown) in
      (
        λ h.
            let (allowed, minimal) =
              both_true allow (is_accepted (custom_type_minimal sc o)) (sym same ∙ h) in
            (allowed, (accepted-IsCustom o).0 minimal),
        λ (allowed, custom). same ∙ rw (allowed, (accepted-IsCustom o).1 custom) refl,
      )

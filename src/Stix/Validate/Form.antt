-- ===== src/Stix/Validate/Form.antt =====
-- Which texts the pattern for identifiers matches (src/prow/stix/_validate.py).
use prow_cti.Prelude.{
  All, Bool, Bool-cases, List, String, [], ap, arith, drop, eqb, false, inl, inr, leb, length,
  length-append, refl, suc, sym, take, take-drop, true, zero, ℕ, ◌&&◌, ◌++◌, ◌+◌, ◌-◌, ◌||◌, ◌↔◌,
  ◌∙◌, ◌∷◌, ◌≡◌, ◌≢◌, ◌≤◌, ◌⊎◌,
}
use prow_cti.Prelude.Text.{codes}
use prow_cti.Stix.Validate.{
  Schema, all_of, chomped, fits_classes, has_form, in_prefix, is_stix_id, uuid_classes,
}
use prow_cti.Stix.Validate.Identifier.{Uuid, Uuid-fits, fits-Uuid}
use mathlib.Core.Path.{subst}

pub all_of-All : (test : ℕ → Bool) (s : List ℕ) → all_of test s ≡ true → All (λ c. test c ≡ true) s
all_of-All test [] h = tt
all_of-All test (c ∷ s) h =
    let first' : test c ≡ true = ground arith in
    (first', all_of-All test s (ground (arith, first')))

pub All-all_of : (test : ℕ → Bool) (s : List ℕ) → All (λ c. test c ≡ true) s → all_of test s ≡ true
All-all_of test [] h = refl
All-all_of test (c ∷ s) (p, h) = rw p (All-all_of test s h)

length-fits :
    (classes : List (ℕ → Bool)) (s : List ℕ)
    → fits_classes classes s ≡ true
    → length s ≡ length classes
length-fits [] [] h = refl
length-fits [] (c ∷ s) h = absurd (cc h)
length-fits (test ∷ classes) [] h = absurd (cc h)
length-fits (test ∷ classes) (c ∷ s) h = ap suc (length-fits classes s (ground arith))

leb-le : (m n : ℕ) → leb m n ≡ true → m ≤ n
leb-le m n h = ground arith

le-leb : (m n : ℕ) → m ≤ n → leb m n ≡ true
le-leb m n h = ground arith

pub both_true : (a b : Bool) → (a && b) ≡ true → (a ≡ true) × (b ≡ true)
both_true true b h = (refl, h)
both_true false b h = absurd (cc h)

take-append : (xs ys : List ℕ) → take (length xs) (xs ++ ys) ≡ xs
take-append [] ys = refl
take-append (x ∷ xs) ys = ap (λ l. x ∷ l) (take-append xs ys)

drop-append : (xs ys : List ℕ) → drop (length xs) (xs ++ ys) ≡ ys
drop-append [] ys = refl
drop-append (x ∷ xs) ys = drop-append xs ys

length-take : (n : ℕ) (s : List ℕ) → n ≤ length s → length (take n s) ≡ n
length-take zero s h = refl
length-take (suc n) [] h = absurd (omega (arith, h))
length-take (suc n) (c ∷ s) h = ap suc (length-take n s (omega (arith, h)))

-- A text is another one, or that with a line break behind it.
abbrev pub IsLine : List ℕ → List ℕ → Type 0
IsLine s body = (s ≡ body) ⊎ (s ≡ body ++ 10 ∷ [])

chomped-IsLine : (s : List ℕ) → IsLine s (chomped s)
chomped-IsLine [] = inl refl
chomped-IsLine (c ∷ []) = elim (Bool-cases (eqb c 10)) [
  | inl e ↦ let same : c ≡ 10 = ground (arith, e) in rw e (inr (ap (λ d. d ∷ []) same))
  | inr e ↦ rw e (inl refl)
]
chomped-IsLine (c ∷ d ∷ s) = elim (chomped-IsLine (d ∷ s)) [
  | inl e ↦ inl (ap (λ t. c ∷ t) e)
  | inr e ↦ inr (ap (λ t. c ∷ t) e)
]

chomped-line : (body : List ℕ) → chomped (body ++ 10 ∷ []) ≡ body
chomped-line [] = refl
chomped-line (c ∷ []) = refl
chomped-line (c ∷ d ∷ body) = ap (λ t. c ∷ t) (chomped-line (d ∷ body))

module _ (sc : Schema) where
  -- A prefix of word characters, dots and dashes that is not empty, two dashes and a UUID.
  abbrev pub HasForm : List ℕ → Type 0
  HasForm s =
      (name uuid : List ℕ) × (s ≡ name ++ b'-' ∷ b'-' ∷ uuid)
      × (name ≢ [])
      × All (λ c. in_prefix sc c ≡ true) name
      × Uuid uuid

  has_form-HasForm : (s : List ℕ) → has_form sc s ≡ true → HasForm s
  has_form-HasForm s h =
      let n = length s - 38 in
      let (is_long, rest) = both_true (leb 39 (length s)) _ h in
      let (word, fits) =
        both_true (all_of (in_prefix sc) (take n s)) (fits_classes uuid_classes (drop n s)) rest in
      let long = leb-le 39 (length s) is_long in
      let (uuid, e, u) = fits-Uuid (drop n s) fits in
      (
        take n s,
        uuid,
        sym (take-drop n s) ∙ ap (λ t. take n s ++ t) e,
        λ empty.
            let measured = length-take n s (omega (arith, long)) in
            omega (arith, sym measured ∙ ap length empty, long),
        all_of-All (in_prefix sc) (take n s) word,
        u,
      )

  HasForm-has_form : (s : List ℕ) → HasForm s → has_form sc s ≡ true
  HasForm-has_form s (name, uuid, e, named, word, u) =
      subst (λ t. has_form sc t ≡ true) (sym e) (by_name name named word)
    where
      tail : List ℕ
      tail = b'-' ∷ b'-' ∷ uuid

      by_name :
          (name : List ℕ)
          → name ≢ []
          → All (λ c. in_prefix sc c ≡ true) name
          → has_form sc (name ++ tail) ≡ true
      by_name [] named word = absurd (named refl)
      by_name (c ∷ name) named word =
          let fits = Uuid-fits uuid u in
          let measured : length ((c ∷ name) ++ tail) ≡ length (c ∷ name) + 38 =
            length-append (c ∷ name) tail
            ∙ ap (λ m. length (c ∷ name) + m) (length-fits uuid_classes tail fits) in
          let cut : length ((c ∷ name) ++ tail) - 38 ≡ length (c ∷ name) =
            omega (arith, measured) in
          let long : leb 39 (length ((c ∷ name) ++ tail)) ≡ true =
            le-leb 39 (length ((c ∷ name) ++ tail)) (omega (arith, measured)) in
          let first' : all_of (in_prefix sc) (take (length (c ∷ name)) ((c ∷ name) ++ tail))
              ≡ true =
            ap (all_of (in_prefix sc)) (take-append (c ∷ name) tail)
            ∙ All-all_of (in_prefix sc) (c ∷ name) word in
          let rest : fits_classes uuid_classes (drop (length (c ∷ name)) ((c ∷ name) ++ tail))
              ≡ true =
            ap (fits_classes uuid_classes) (drop-append (c ∷ name) tail) ∙ fits in
          subst
            (λ n.
              (leb 39 (length ((c ∷ name) ++ tail))
                && (all_of (in_prefix sc) (take n ((c ∷ name) ++ tail))
                    && fits_classes uuid_classes (drop n ((c ∷ name) ++ tail))))
              ≡ true)
            (sym cut) (rw (long, first', rest) refl)

  -- A text of that form, or one with a line break behind it.
  abbrev pub IsIdentifier : String → Type 0
  IsIdentifier id = (body : List ℕ) × IsLine (codes id) body × HasForm body

  pub is_stix_id-IsIdentifier : (id : String) → is_stix_id sc id ≡ true ↔ IsIdentifier id
  unfolding is_stix_id
  is_stix_id-IsIdentifier id = (
    λ h. elim (Bool-cases (has_form sc (codes id))) [
      | inl e ↦ (codes id, inl refl, has_form-HasForm (codes id) e)
      | inr e ↦ (
        chomped (codes id),
        chomped-IsLine (codes id),
        has_form-HasForm (chomped (codes id)) (ground (arith, h, e)),
      )
    ],
    λ (body, line, form). by_line body line (HasForm-has_form body form),
  )
    where
      by_line :
          (body : List ℕ)
          → IsLine (codes id) body
          → has_form sc body ≡ true
          → (has_form sc (codes id) || has_form sc (chomped (codes id))) ≡ true
      by_line body (inl e) f = let here = ap (has_form sc) e ∙ f in rw here refl
      by_line body (inr e) f =
          let here =
            ap (λ t. has_form sc (chomped t)) e ∙ ap (has_form sc) (chomped-line body) ∙ f in
          elim (Bool-cases (has_form sc (codes id))) [
            | inl g ↦ rw g refl
            | inr g ↦ rw (g, here) refl
          ]

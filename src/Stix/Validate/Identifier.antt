-- ===== src/Stix/Validate/Identifier.antt =====
-- The identifiers that the pattern of src/prow/stix/_validate.py matches.
use prow_cti.Prelude.{
  All, Bool, List, [], ap, append-nil, arith, length, refl, suc, sym, true, zero, ℕ, ◌++◌, ◌∙◌, ◌∷◌,
  ◌≡◌,
}
use prow_cti.Stix.Validate.{
  fits_classes, hexes, is_dash, is_hex, is_variant, is_version, uuid_classes,
}
use mathlib.Core.Path.{subst}

-- Five groups of hexadecimal digits between dashes, with a digit for the version and one for the variant.
pub record Uuid (s : List ℕ) : Type 0 where
  pub time_low : List ℕ
  pub time_mid : List ℕ
  pub time_high : List ℕ
  pub clock : List ℕ
  pub node : List ℕ
  pub version : ℕ
  pub variant : ℕ
  pub lengths :
      (length time_low ≡ 8)
      × (length time_mid ≡ 4)
      × (length time_high ≡ 3)
      × (length clock ≡ 3)
      × (length node ≡ 12)
  pub hexadecimal :
      All (λ g. All (λ c. is_hex c ≡ true) g) (time_low ∷ time_mid ∷ time_high ∷ clock ∷ node ∷ [])
  pub versioned : is_version version ≡ true
  pub of_variant : is_variant variant ≡ true
  pub text :
      s
      ≡ time_low
        ++ b'-'
          ∷ (time_mid ++ b'-' ∷ version ∷ (time_high ++ b'-' ∷ variant ∷ (clock ++ b'-' ∷ node)))

fits-cons :
    (test : ℕ → Bool) (classes : List (ℕ → Bool)) (s : List ℕ)
    → fits_classes (test ∷ classes) s ≡ true
    → (c : ℕ) × (rest : List ℕ) × (s ≡ c ∷ rest)
      × (test c ≡ true)
      × (fits_classes classes rest ≡ true)
fits-cons test classes [] h = absurd (cc h)
fits-cons test classes (c ∷ s) h = (c, s, refl, ground arith, ground arith)

fits_dash :
    (classes : List (ℕ → Bool)) (s : List ℕ)
    → fits_classes (is_dash ∷ classes) s ≡ true
    → (rest : List ℕ) × (s ≡ b'-' ∷ rest) × (fits_classes classes rest ≡ true)
fits_dash classes s h =
    let (c, rest, e, dash, f) = fits-cons is_dash classes s h in
    let same : c ≡ b'-' = ground (arith, dash) in (rest, e ∙ ap (λ d. d ∷ rest) same, f)

-- Of so many hexadecimal digits.
abbrev IsGroup : ℕ → List ℕ → Type 0
IsGroup n g = (length g ≡ n) × All (λ c. is_hex c ≡ true) g

fits-hexes :
    (n : ℕ) (classes : List (ℕ → Bool)) (s : List ℕ)
    → fits_classes (hexes n classes) s ≡ true
    → (g rest : List ℕ) × (s ≡ g ++ rest) × IsGroup n g × (fits_classes classes rest ≡ true)
fits-hexes zero classes s h = ([], s, refl, (refl, tt), h)
fits-hexes (suc n) classes s h =
    let (c, t, e, hex, f) = fits-cons is_hex (hexes n classes) s h in
    let (g, rest, e', (len, all'), f') = fits-hexes n classes t f in
    (c ∷ g, rest, e ∙ ap (λ u. c ∷ u) e', (ap suc len, (hex, all')), f')

hexes-fits :
    (n : ℕ) (classes : List (ℕ → Bool)) (g rest : List ℕ)
    → IsGroup n g
    → fits_classes classes rest ≡ true
    → fits_classes (hexes n classes) (g ++ rest) ≡ true
hexes-fits zero classes [] rest (len, h) f = f
hexes-fits zero classes (c ∷ g) rest (len, h) f = absurd (omega (arith, len))
hexes-fits (suc n) classes [] rest (len, h) f = absurd (omega (arith, len))
hexes-fits (suc n) classes (c ∷ g) rest (len, (hex, h)) f =
    let more = hexes-fits n classes g rest (omega (arith, len), h) f in ground (arith, hex, more)

fits_end : (s : List ℕ) → fits_classes [] s ≡ true → s ≡ []
fits_end [] h = refl
fits_end (c ∷ s) h = absurd (cc h)

-- The classes from a group on.
abbrev from_node : List (ℕ → Bool)
from_node = hexes 12 []

abbrev from_clock : List (ℕ → Bool)
from_clock = hexes 3 (is_dash ∷ from_node)

abbrev from_high : List (ℕ → Bool)
from_high = hexes 3 (is_dash ∷ is_variant ∷ from_clock)

abbrev from_mid : List (ℕ → Bool)
from_mid = hexes 4 (is_dash ∷ is_version ∷ from_high)

abbrev from_low : List (ℕ → Bool)
from_low = hexes 8 (is_dash ∷ from_mid)

-- What stands behind a group or a character is replaced by what it is.
glue : {s r t : List ℕ} (g : List ℕ) → s ≡ g ++ r → r ≡ t → s ≡ g ++ t
glue g e f = e ∙ ap (λ u. g ++ u) f

behind : {c : ℕ} {s r t : List ℕ} → s ≡ c ∷ r → r ≡ t → s ≡ c ∷ t
behind {c = c} e f = e ∙ ap (λ u. c ∷ u) f

-- Two dashes and a UUID.
pub fits-Uuid :
    (s : List ℕ)
    → fits_classes uuid_classes s ≡ true
    → (u : List ℕ) × (s ≡ b'-' ∷ b'-' ∷ u) × Uuid u
fits-Uuid s h =
    let (s1, e1, f1) = fits_dash (is_dash ∷ from_low) s h in
    let (u, e2, f2) = fits_dash from_low s1 f1 in
    let (a, s3, e3, (la, ha), f3) = fits-hexes 8 (is_dash ∷ from_mid) u f2 in
    let (s4, e4, f4) = fits_dash from_mid s3 f3 in
    let (b, s5, e5, (lb, hb), f5) = fits-hexes 4 (is_dash ∷ is_version ∷ from_high) s4 f4 in
    let (s6, e6, f6) = fits_dash (is_version ∷ from_high) s5 f5 in
    let (v, s7, e7, hv, f7) = fits-cons is_version from_high s6 f6 in
    let (c, s8, e8, (lc, hc), f8) = fits-hexes 3 (is_dash ∷ is_variant ∷ from_clock) s7 f7 in
    let (s9, e9, f9) = fits_dash (is_variant ∷ from_clock) s8 f8 in
    let (w, s10, e10, hw, f10) = fits-cons is_variant from_clock s9 f9 in
    let (d, s11, e11, (ld, hd), f11) = fits-hexes 3 (is_dash ∷ from_node) s10 f10 in
    let (s12, e12, f12) = fits_dash from_node s11 f11 in
    let (x, s13, e13, (lx, hx), f13) = fits-hexes 12 [] s12 f12 in
    let last : s12 ≡ x = e13 ∙ ap (λ r. x ++ r) (fits_end s13 f13) ∙ append-nil x in
    (
      u,
      e1 ∙ ap (λ r. b'-' ∷ r) e2,
      record {
        time_low = a;
        time_mid = b;
        time_high = c;
        clock = d;
        node = x;
        version = v;
        variant = w;
        lengths = (la, lb, lc, ld, lx);
        hexadecimal = (ha, (hb, (hc, (hd, (hx, tt)))));
        versioned = hv;
        of_variant = hw;
        text = glue a e3 (
            behind e4 (
              glue b e5 (
                behind e6 (
                  behind e7 (glue c e8 (behind e9 (behind e10 (glue d e11 (behind e12 last)))))))));
      },
    )

pub Uuid-fits : (u : List ℕ) → Uuid u → fits_classes uuid_classes (b'-' ∷ b'-' ∷ u) ≡ true
Uuid-fits u r =
    let (la, lb, lc, ld, lx) = r.lengths in
    let (ha, (hb, (hc, (hd, (hx, _))))) = r.hexadecimal in
    let at_node : fits_classes from_node r.node ≡ true =
      subst (λ t. fits_classes from_node t ≡ true) (append-nil r.node)
        (hexes-fits 12 [] r.node [] (lx, hx) refl) in
    let to_clock = r.clock ++ b'-' ∷ r.node in
    let at_clock : fits_classes from_clock to_clock ≡ true =
      hexes-fits 3 (is_dash ∷ from_node) r.clock (b'-' ∷ r.node) (ld, hd) at_node in
    let to_high = r.time_high ++ b'-' ∷ r.variant ∷ to_clock in
    let at_high : fits_classes from_high to_high ≡ true =
      hexes-fits 3 (is_dash ∷ is_variant ∷ from_clock) r.time_high (b'-' ∷ r.variant ∷ to_clock)
        (lc, hc) (rw r.of_variant at_clock) in
    let to_mid = r.time_mid ++ b'-' ∷ r.version ∷ to_high in
    let at_mid : fits_classes from_mid to_mid ≡ true =
      hexes-fits 4 (is_dash ∷ is_version ∷ from_high) r.time_mid (b'-' ∷ r.version ∷ to_high)
        (lb, hb) (rw r.versioned at_high) in
    subst (λ t. fits_classes from_low t ≡ true) (sym r.text)
      (hexes-fits 8 (is_dash ∷ from_mid) r.time_low (b'-' ∷ to_mid) (la, ha) at_mid)

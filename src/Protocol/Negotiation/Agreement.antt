-- ===== src/Protocol/Negotiation/Agreement.antt =====
-- The two sides of the handshake agree (src/prow/connector/protocol/negotiation.py).
use prow_cti.Prelude.{
  Bool, Bool-cases, List, Option, Option-cases, [], ap, arith, false, filter, inl, inr, none, refl,
  some, sym, true, ◌&&◌, ◌∙◌, ◌∷◌, ◌≡◌,
}
use prow_cti.Prelude.Int.{eqb_ℤ_iff, leb_ℤ, ℤ, ◌≤ℤ◌}
use prow_cti.Protocol.Negotiation.{contains, highest_overlap, max_of}

-- The highest version of a list.
pub max_of-contains : (vs : List ℤ) (m : ℤ) → max_of vs ≡ some m → contains vs m ≡ true
unfolding max_of contains
max_of-contains [] m h = cc
max_of-contains (v ∷ vs) m h = by_rest (max_of vs) refl (max_of-contains vs)
  where
    by_rest :
        (o : Option ℤ)
        → max_of vs ≡ o
        → ((u : ℤ) → max_of vs ≡ some u → contains vs u ≡ true)
        → contains (v ∷ vs) m ≡ true
    by_rest none e rec = ground (arith, e, eqb_ℤ_iff v m)
    by_rest (some u) e rec = ground (arith, e, eqb_ℤ_iff v m, rec u e)

pub max_of-none : (vs : List ℤ) (u : ℤ) → max_of vs ≡ none → contains vs u ≡ false
unfolding max_of contains
max_of-none [] u h = refl
max_of-none (v ∷ vs) u h = absurd (ground arith)

pub max_of-upper : (vs : List ℤ) (m u : ℤ) → max_of vs ≡ some m → contains vs u ≡ true → u ≤ℤ m
unfolding max_of contains
max_of-upper [] m u h g = cc
max_of-upper (v ∷ vs) m u h g = by_rest (max_of vs) refl (max_of-upper vs)
  where
    by_rest :
        (o : Option ℤ)
        → max_of vs ≡ o
        → ((k l : ℤ) → max_of vs ≡ some k → contains vs l ≡ true → l ≤ℤ k)
        → u ≤ℤ m
    by_rest none e rec = ground (arith, e, eqb_ℤ_iff v u, max_of-none vs u e)
    by_rest (some k) e rec = ground (arith, e, eqb_ℤ_iff v u, rec k u e)

pub max_of-some : (vs : List ℤ) (u : ℤ) → contains vs u ≡ true → (m : ℤ) × (max_of vs ≡ some m)
unfolding max_of contains
max_of-some [] u g = cc
max_of-some (v ∷ vs) u g = elim (Option-cases (max_of vs)) [
  | inl e ↦ (v, rw e)
  | inr (k, e) ↦ elim (Bool-cases (leb_ℤ k v)) [
    | inl le ↦ (v, rw (e, le))
    | inr gt ↦ (k, rw (e, gt))
  ]
]

contains-filter :
    (keep : ℤ → Bool) (vs : List ℤ) (u : ℤ)
    → contains (filter keep vs) u ≡ (contains vs u && keep u)
unfolding filter contains
contains-filter keep [] u = refl
contains-filter keep (v ∷ vs) u = ground (arith, contains-filter keep vs u, eqb_ℤ_iff v u)

-- `_highest_overlap` is the highest of the common versions, and there is one if anything is common.
pub overlap-common :
    (left right : List ℤ) (v : ℤ)
    → highest_overlap left right ≡ some v
    → (contains left v ≡ true) × (contains right v ≡ true)
unfolding highest_overlap
overlap-common left right v h = ground (
  arith,
  max_of-contains (filter (contains right) left) v h,
  contains-filter (contains right) left v,
)

pub overlap-upper :
    (left right : List ℤ) (v u : ℤ)
    → highest_overlap left right ≡ some v
    → contains left u ≡ true
    → contains right u ≡ true
    → u ≤ℤ v
unfolding highest_overlap
overlap-upper left right v u h g k =
    max_of-upper (filter (contains right) left) v u h
      (ground (arith, contains-filter (contains right) left u))

pub overlap-none :
    (left right : List ℤ) (u : ℤ)
    → highest_overlap left right ≡ none
    → contains left u ≡ true
    → contains right u ≡ false
unfolding highest_overlap
overlap-none left right u h g =
    ground (
      arith,
      max_of-none (filter (contains right) left) u h,
      contains-filter (contains right) left u,
    )

contains-one : (v : ℤ) → contains (v ∷ []) v ≡ true
unfolding contains
contains-one v = ground (arith, eqb_ℤ_iff v v)

contains-one_eq : (v u : ℤ) → contains (v ∷ []) u ≡ true → v ≡ u
unfolding contains
contains-one_eq v u h = ground (arith, eqb_ℤ_iff v u)

-- The runtime accepts a version that it supports, and no other.
pub overlap-one :
    (left : List ℤ) (v : ℤ) → contains left v ≡ true → highest_overlap left (v ∷ []) ≡ some v
overlap-one left v h = elim (Option-cases (highest_overlap left (v ∷ []))) [
  | inl e ↦ cc (overlap-none left (v ∷ []) v e h, contains-one v)
  | inr (u, e) ↦ e ∙ ap some (sym (contains-one_eq v u (overlap-common left (v ∷ []) u e).1))
]

pub overlap-foreign :
    (left : List ℤ) (v : ℤ) → contains left v ≡ false → highest_overlap left (v ∷ []) ≡ none
overlap-foreign left v h = elim (Option-cases (highest_overlap left (v ∷ []))) [
  | inl e ↦ e
  | inr (u, e) ↦
      let (mine, theirs) = overlap-common left (v ∷ []) u e in
      let same = contains-one_eq v u theirs in absurd (cc (same, mine, h))
]

pub not-contains :
    (left right : List ℤ) (v : ℤ)
    → highest_overlap left right ≡ none
    → contains right v ≡ true
    → contains left v ≡ false
not-contains left right v h g = elim (Bool-cases (contains left v)) [
  | inl mine ↦ cc (overlap-none left right v h mine, g)
  | inr e ↦ e
]

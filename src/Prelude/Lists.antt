-- ===== src/Prelude/Lists.antt =====
-- Lists measured by native numbers, a filter by a Boolean test, and predicates over a list.
use Prim.Native.Nat.{ℕ, zero, suc, ◌+◌, ◌≤◌}
use mathlib.Core.Path.{◌≡◌, refl, ap}
use mathlib.Core.Bool.{Bool, true, false, not}
use mathlib.Core.List.{List, [], ◌∷◌, ◌++◌}
use native.Mathlib.Omega.{arith}
use prow_cti.Prelude.Tests.{if◌then◌else◌}

abbrev pub All {ℓ κ} : {A : Type ℓ} → (A → Type κ) → List A → Type κ
All P [] = Unit
All P (x ∷ xs) = P x × All P xs

module _ {ℓ} {A : Type ℓ} where
  abbrev pub length : List A → ℕ
  length [] = 0
  length (x ∷ xs) = suc (length xs)

  pub length-append : (xs ys : List A) → length (xs ++ ys) ≡ length xs + length ys
  length-append [] ys = omega arith
  length-append (x ∷ xs) ys = omega (arith, length-append xs ys)

  -- `[x for x in xs if keep(x)]`
  unfoldable pub filter : (A → Bool) → List A → List A
  filter keep [] = []
  filter keep (x ∷ xs) = let rest = filter keep xs in if keep x then x ∷ rest else rest

  pub length-filter-le : (keep : A → Bool) (xs : List A) → length (filter keep xs) ≤ length xs
  unfolding filter
  length-filter-le keep [] = omega arith
  length-filter-le keep (x ∷ xs) = ground (arith, length-filter-le keep xs)

  -- What a filter keeps passes any test that the first one implies.
  pub filter-filter :
      (keep also : A → Bool) (xs : List A)
      → ((x : A) → also x ≡ true → keep x ≡ true)
      → filter also (filter keep xs) ≡ filter also xs
  unfolding filter
  filter-filter keep also [] h = refl
  filter-filter keep also (x ∷ xs) h = ground (arith, filter-filter keep also xs h, h x)

  pub length-filter_mono :
      (keep also : A → Bool) (xs : List A)
      → ((x : A) → also x ≡ true → keep x ≡ true)
      → length (filter also xs) ≤ length (filter keep xs)
  unfolding filter
  length-filter_mono keep also [] h = omega arith
  length-filter_mono keep also (x ∷ xs) h = ground (arith, length-filter_mono keep also xs h, h x)

  pub filter-append :
      (keep : A → Bool) (xs ys : List A) → filter keep (xs ++ ys) ≡ filter keep xs ++ filter keep ys
  unfolding filter
  filter-append keep [] ys = refl
  filter-append keep (x ∷ xs) ys = ground (arith, filter-append keep xs ys)

  pub All-filter : (keep : A → Bool) (xs : List A) → All (λ x. keep x ≡ true) (filter keep xs)
  unfolding filter
  All-filter keep [] = tt
  All-filter keep (x ∷ xs) = ground (arith, All-filter keep xs)

  -- `xs[:n]` and `xs[n:]`
  abbrev pub take : ℕ → List A → List A
  take zero xs = []
  take (suc n) [] = []
  take (suc n) (x ∷ xs) = x ∷ take n xs

  abbrev pub drop : ℕ → List A → List A
  drop zero xs = xs
  drop (suc n) [] = []
  drop (suc n) (x ∷ xs) = drop n xs

  pub take-drop : (n : ℕ) (xs : List A) → take n xs ++ drop n xs ≡ xs
  take-drop zero xs = refl
  take-drop (suc n) [] = refl
  take-drop (suc n) (x ∷ xs) = ap (λ l. x ∷ l) (take-drop n xs)

  pub length-drop-le : (n : ℕ) (xs : List A) → length (drop n xs) ≤ length xs
  length-drop-le zero xs = omega arith
  length-drop-le (suc n) [] = omega arith
  length-drop-le (suc n) (x ∷ xs) = omega (arith, length-drop-le n xs)

  pub length-filter-not :
      (keep : A → Bool) (xs : List A)
      → length (filter keep xs) + length (filter (λ x. not (keep x)) xs) ≡ length xs
  unfolding filter
  length-filter-not keep [] = omega arith
  length-filter-not keep (x ∷ xs) = ground (arith, length-filter-not keep xs)

module _ {ℓ κ} {A : Type ℓ} where
  pub All-map : {P Q : A → Type κ} (xs : List A) → ((x : A) → P x → Q x) → All P xs → All Q xs
  All-map [] f h = tt
  All-map (x ∷ xs) f (h, hs) = (f x h, All-map xs f hs)

  All-test :
      (P : A → Type κ) (b : Bool) (x : A) (ins outs xs : List A)
      → All P (if b then x ∷ ins else ins)
      → All P (if not b then x ∷ outs else outs)
      → (All P ins → All P outs → All P xs)
      → P x × All P xs
  All-test P true x ins outs xs (p, h) g f = (p, f h g)
  All-test P false x ins outs xs h (p, g) f = (p, f h g)

  -- What holds of all that a test keeps and of all that it drops holds of all.
  pub All-filter-not :
      (P : A → Type κ) (keep : A → Bool) (xs : List A)
      → All P (filter keep xs)
      → All P (filter (λ x. not (keep x)) xs)
      → All P xs
  unfolding filter
  All-filter-not P keep [] h g = tt
  All-filter-not P keep (x ∷ xs) h g =
      All-test P (keep x) x (filter keep xs) (filter (λ y. not (keep y)) xs) xs h g
        (All-filter-not P keep xs)

-- ===== src/Feeds/Attack/Batches.antt =====
-- The batches of the ATT&CK connector (src/prow/connectors/attack/connector.py).
use prow_cti.Feeds.Attack.{batch_calls, batches_of, emit_batch_size}
use prow_cti.Feeds.Fetch.{ContextCall, emit_dict_call, make_calls}
use prow_cti.Feeds.Http.{set_if}
use prow_cti.Json.{Fields}
use prow_cti.Prelude.{
  All, Bool, Bool-cases, List, Option, String, [], ap, arith, drop, false, if◌then◌else◌, inl, inr,
  length, length-drop-le, none, refl, some, suc, take, take-drop, true, zero, ℕ, ◌++◌, ◌∙◌, ◌∷◌,
  ◌≡◌, ◌≤◌,
}
use prow_cti.Stix.Helpers.{StixLib}

abbrev pub joined : List (List Fields) → List Fields
joined [] = []
joined (b ∷ bs) = b ++ joined bs

pub batches_of-joined :
    (fuel n : ℕ) (os : List Fields) → length os ≤ fuel → joined (batches_of fuel (suc n) os) ≡ os
unfolding batches_of
batches_of-joined fuel n [] h = refl
batches_of-joined zero n (o ∷ os) h = absurd (omega arith)
batches_of-joined (suc fuel) n (o ∷ os) h =
    let shorter : length (drop n os) ≤ fuel = omega (arith, length-drop-le n os) in
    ap (λ rest. (o ∷ take n os) ++ rest) (batches_of-joined fuel n (drop n os) shorter)
    ∙ ap (λ rest. o ∷ rest) (take-drop n os)

-- A bundle of no more objects than a batch has.
abbrev pub IsSmall : ContextCall → Type 0
IsSmall (emit_dict_call id os) = length os ≤ emit_batch_size
IsSmall _ = Unit

take_short {ℓ} : {A : Type ℓ} (n : ℕ) (xs : List A) → length (take n xs) ≤ n
take_short zero xs = omega arith
take_short (suc n) [] = omega arith
take_short (suc n) (x ∷ xs) = omega (arith, take_short n xs)

pub batches_of-small :
    (fuel n : ℕ) (os : List Fields) → All (λ b. length b ≤ suc n) (batches_of fuel (suc n) os)
unfolding batches_of
batches_of-small fuel n [] = tt
batches_of-small zero n (o ∷ os) = tt
batches_of-small (suc fuel) n (o ∷ os) =
    (take_short (suc n) (o ∷ os), batches_of-small fuel n (drop n os))

pub set_if-IsSmall :
    (key : String) (value : Option String) (cs : List ContextCall)
    → All IsSmall cs
    → All IsSmall (set_if key value cs)
set_if-IsSmall key none cs h = h
set_if-IsSmall key (some value) cs h = (tt, h)

All-if : (b : Bool) (cs : List ContextCall) → All IsSmall cs → All IsSmall (if b then [] else cs)
All-if true cs h = tt
All-if false cs h = h

pub batch_calls-IsSmall :
    (lib : StixLib) (c : ℕ → Bool) (final : List ContextCall) (bs : List (List Fields)) (i : ℕ)
    → All (λ b. length b ≤ emit_batch_size) bs
    → All IsSmall final
    → All IsSmall (batch_calls lib c i bs final)
unfolding batch_calls
batch_calls-IsSmall lib c final [] i h f = f
batch_calls-IsSmall lib c final (b ∷ bs) i (small, h) f =
    All-if (c i) _ (small, batch_calls-IsSmall lib c final bs (suc i) h f)

-- What is made of a list of calls has what all of them have.
pub make_calls-All :
    (P : ContextCall → Type 0) (accepts : ContextCall → Bool) (cs : List ContextCall)
    → All P cs
    → All P (make_calls accepts cs).0
unfolding make_calls
make_calls-All P accepts [] h = tt
make_calls-All P accepts (c ∷ cs) (p, h) = elim (Bool-cases (accepts c)) [
  | inl e ↦ rw e (p, make_calls-All P accepts cs h)
  | inr e ↦ rw e (p, tt)
]

-- ===== src/Prelude/Lists.antt =====
-- Lists measured by native numbers, under the library's names.
use Prim.Native.Nat.{ℕ, zero, suc, ◌+◌, ◌<◌}
use mathlib.Core.Path.{◌≡◌, ap, ◌∙◌}
use mathlib.Core.List.{List, [], ◌∷◌, ◌++◌, map}
use native.Mathlib.Omega.{arith}

module _ {ℓ} {A : Type ℓ} where
  abbrev pub length : List A → ℕ
  length [] = 0
  length (_ ∷ xs) = suc (length xs)

  pub length-append : (xs ys : List A) → length (xs ++ ys) ≡ length xs + length ys
  length-append [] ys = omega arith
  length-append (_ ∷ xs) ys = omega (arith, length-append xs ys)

-- Fuel above a bound is a successor.
pub one_call {ℓ} :
    (Claim : ℕ → Type ℓ) {size : ℕ}
    → ((left : ℕ) → size < suc left → Claim (suc left))
    → (fuel : ℕ) → size < fuel
    → Claim fuel
one_call Claim step zero enough = absurd (omega arith)
one_call Claim step (suc left) enough = step left enough

-- What is left of a list is no longer than the list.
pub length-rest {ℓ} :
    {A : Type ℓ} (ps rest : List A) {xs : List A}
    → xs ≡ ps ++ rest
    → length xs ≡ length ps + length rest
length-rest ps rest e = ap length e ∙ length-append ps rest

-- Every item of a list has a property.
abbrev pub Each {ℓ κ} : {A : Type ℓ} → (A → Type κ) → List A → Type κ
Each P [] = Unit
Each P (a ∷ l) = P a × Each P l

pub Each-map {ℓ κ μ ν} :
    {A : Type ℓ} {B : Type κ} (P : A → Type μ) (Q : B → Type ν) (f : A → B)
    → ((a : A) → P a → Q (f a))
    → (l : List A) → Each P l
    → Each Q (map f l)
Each-map P Q f step [] h = tt
Each-map P Q f step (a ∷ l) h = (step a h.0, Each-map P Q f step l h.1)

-- ===== src/Validation/Depth/Answers.antt =====
-- What the calls of `validateMaxDepth` and the rounds of its loop answer.
use graphql.Prelude.{◌≡◌, refl, Bool, true, false, List, ◌⊎◌, inl, inr}
use graphql.Prelude.Result.{ok, bind}
use graphql.Validation.Depth.{DepthError, Checked, or_else}

-- A call that returns, and whose flag says whether `P` holds.
pub data Answers {ℓ} (P : Type ℓ) : Checked → Type ℓ where
  yes : {errs : List DepthError} → P → Answers P (ok (true, errs))
  nope : {errs : List DepthError} → ¬ P → Answers P (ok (false, errs))

module _ {ℓ κ} {P : Type ℓ} {Q : Type κ} where
  pub Answers-map : {r : Checked} → (P → Q) → (Q → P) → Answers P r → Answers Q r
  Answers-map f g (yes p) = yes (f p)
  Answers-map f g (nope n) = nope λ q. n (g q)

-- The flag goes round the loop.
module _ {ℓ κ} {P : Type ℓ} {Q : Type κ} where
  pub Answers-bind :
      {r : Checked} (k : Bool × List DepthError → Checked)
      → Answers P r
      → ((b : Bool) (errs : List DepthError) → Answers ((b ≡ true) ⊎ Q) (k (b, errs)))
      → Answers (P ⊎ Q) (bind r k)
  Answers-bind k (yes {errs} p) next =
      Answers-map (λ x. elim x [ inl e ↦ inl p | inr q ↦ inr q ]) (λ x. inl refl) (next true errs)
  Answers-bind k (nope {errs} n) next =
      Answers-map (λ x. elim x [ inl e ↦ cc | inr q ↦ inr q ])
        (λ x. elim x [ inl p ↦ absurd (n p) | inr q ↦ inr q ]) (next false errs)

pub Answers-or_else {ℓ} :
    {Q : Type ℓ} {call : List DepthError → Checked} (b : Bool) (errs : List DepthError)
    → ((errs : List DepthError) → Answers Q (call errs))
    → Answers ((b ≡ true) ⊎ Q) (or_else b errs call)
Answers-or_else true errs h = yes (inl refl)
Answers-or_else false errs h = Answers-map inr (λ x. elim x [ inl e ↦ cc | inr q ↦ q ]) (h errs)

pub Answers-flag : (b : Bool) {errs : List DepthError} → Answers (b ≡ true) (ok (b, errs))
Answers-flag true = yes refl
Answers-flag false = nope (cc)

-- ===== src/Prelude/Result.antt =====
-- Runs that may fail: `raised` is a Go panic or error value, `out_of_fuel` has no counterpart in
-- the program. `Ensures P r` says that the run stays within its fuel and that `P` holds of its
-- value, if it has one.
use mathlib.Core.Bool.{Bool, true, false}
use graphql.Prelude.Tests.{if◌then◌else◌}
use mathlib.Core.Logic.{◌≢◌}
use mathlib.Core.Path.{◌≡◌, refl, subst}

pub data Result {ℓ κ} (E : Type κ) (A : Type ℓ) : Type (ℓ ⊔ κ) where
  ok : A → Result E A
  raised : E → Result E A
  out_of_fuel : Result E A

abbrev pub bind {ℓ κ μ} :
    {E : Type μ} {A : Type ℓ} {B : Type κ} → Result E A → (A → Result E B) → Result E B
bind (ok a) f = f a
bind (raised e) f = raised e
bind out_of_fuel f = out_of_fuel

pub data Ensures {ℓ κ μ} {F : Type μ} {V : Type ℓ} (Post : V → Type κ)
    : Result F V → Type (ℓ ⊔ κ ⊔ μ) where
  holds : {v : V} → Post v → Ensures Post (ok v)
  stopped : {e : F} → Ensures Post (raised e)

module _ {ℓ κ μ} {F : Type μ} {V : Type ℓ} {Post : V → Type κ} where
  pub Ensures-ok : {run : Result F V} {v : V} → Ensures Post run → run ≡ ok v → Post v
  Ensures-ok (holds good) e = subst Post (cc) good
  Ensures-ok stopped e = cc

  pub Ensures-out_of_fuel : {run : Result F V} → Ensures Post run → run ≢ out_of_fuel
  Ensures-out_of_fuel (holds good) = cc
  Ensures-out_of_fuel stopped = cc

  pub Ensures-map {ν} :
      {Next : V → Type ν} {run : Result F V}
      → Ensures Post run
      → ((v : V) → Post v → Next v)
      → Ensures Next run
  Ensures-map (holds {v} good) step = holds (step v good)
  Ensures-map stopped step = stopped

  pub Ensures-bind {ℓ' κ'} :
      {W : Type ℓ'} {Next : W → Type κ'} {run : Result F V} {then_run : V → Result F W}
      → Ensures Post run
      → ((v : V) → Post v → Ensures Next (then_run v))
      → Ensures Next (bind run then_run)
  Ensures-bind (holds {v} good) step = step v good
  Ensures-bind stopped step = stopped

  pub Ensures-if :
      (b : Bool) {x y : Result F V}
      → Ensures Post x
      → Ensures Post y
      → Ensures Post (if b then x else y)
  Ensures-if true hx hy = hx
  Ensures-if false hx hy = hy

  -- The same, where the first branch needs that the test holds.
  pub Ensures-if_true :
      (b : Bool) {x y : Result F V}
      → (b ≡ true → Ensures Post x)
      → Ensures Post y
      → Ensures Post (if b then x else y)
  Ensures-if_true true hx hy = hx refl
  Ensures-if_true false hx hy = hy

-- Two things that hold of the value of one run.
pub Ensures-both {ℓ κ μ ν} :
    {F : Type μ} {V : Type ℓ} {P : V → Type κ} {Q : V → Type ν} {run : Result F V}
    → Ensures P run
    → Ensures Q run
    → Ensures (λ v. P v × Q v) run
Ensures-both {run = ok v} h g = holds (Ensures-ok h refl, Ensures-ok g refl)
Ensures-both {run = raised e} h g = stopped
Ensures-both {run = out_of_fuel} h g = elim h [ ]

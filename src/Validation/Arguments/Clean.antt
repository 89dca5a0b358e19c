-- ===== src/Validation/Arguments/Clean.antt =====
-- The errors of a context before and after a step of internal/validation/validation.go.
use graphql.Prelude.{
  ◌≤◌, ◌≡◌, refl, sym, ap, ◌∙◌, List, [], ◌∷◌, ◌++◌, arith, length, length-append, append-nil,
  append_assoc,
}
use graphql.Validation.Errors.{Error}
use graphql.Validation.Context.{Context, add_errors}

-- A list with items added at its end.
abbrev pub Extends {ℓ} : {A : Type ℓ} → List A → List A → Type ℓ
Extends {A = A} old new = (added : List A) × (new ≡ old ++ added)

pub Extends-same {ℓ} : {A : Type ℓ} (l : List A) → Extends l l
Extends-same l = ([], sym (append-nil l))

Extends-then {ℓ} : {A : Type ℓ} (l m n : List A) → Extends l m → Extends m n → Extends l n
Extends-then l m n (a, e) (b, h) = (a ++ b, h ∙ ap (λ k. k ++ b) e ∙ append_assoc l a b)

-- Every error and every use of a variable of the first context is in the second, in its place, and
-- what is new comes behind.
pub record Grows (c c' : Context) : Type 0 where
  pub errors : Extends c.errs c'.errs
  pub op_errors : Extends c.op_errs c'.op_errs
  pub variables : Extends c.used_vars c'.used_vars

-- A run from the first context to the second: nothing is removed, and if there are no more errors
-- than before, `P` holds.
pub record Clean {ℓ} (c : Context) (P : Type ℓ) (c' : Context) : Type ℓ where
  pub grows : Grows c c'
  pub unless : length c'.errs ≡ length c.errs → P

module _ {c c' : Context} where
  longer : Grows c c' → length c.errs ≤ length c'.errs
  longer g = let (added, e) = g.errors in omega (arith, length-append c.errs added, ap length e)

Grows-same : (c : Context) → Grows c c
Grows-same c = record {
  errors = Extends-same c.errs;
  op_errors = Extends-same c.op_errs;
  variables = Extends-same c.used_vars;
}

Grows-then : {a b c : Context} → Grows a b → Grows b c → Grows a c
Grows-then g h = record {
  errors = Extends-then _ _ _ g.errors h.errors;
  op_errors = Extends-then _ _ _ g.op_errors h.op_errors;
  variables = Extends-then _ _ _ g.variables h.variables;
}

pub Clean-then {ℓ κ} :
    {P : Type ℓ} {Q : Type κ} {c c1 c2 : Context}
    → Clean c P c1
    → Clean c1 Q c2
    → Clean c (P × Q) c2
Clean-then first second = record {
  grows = Grows-then first.grows second.grows;
  unless = λ e. (
    first.unless (omega (arith, longer first.grows, longer second.grows, e)),
    second.unless (omega (arith, longer first.grows, longer second.grows, e)),
  );
}

pub Clean-map {ℓ κ} :
    {P : Type ℓ} {Q : Type κ} {c c' : Context} → (P → Q) → Clean c P c' → Clean c Q c'
Clean-map f run = record { grows = run.grows; unless = λ e. f (run.unless e) }

pub Clean-same {ℓ} : {P : Type ℓ} {c : Context} → P → Clean c P c
Clean-same {c = c} p = record { grows = Grows-same c; unless = λ e. p }

Grows-add_errors : (new : List Error) (c : Context) → Grows c (add_errors new c)
Grows-add_errors new c = record {
  errors = (new, refl);
  op_errors = Extends-same c.op_errs;
  variables = Extends-same c.used_vars;
}

-- A step that adds errors,
pub Clean-add_errors : (new : List Error) (c : Context) → Clean c (Unit {0}) (add_errors new c)
Clean-add_errors new c = record { grows = Grows-add_errors new c; unless = λ e. tt }

-- and one that adds one, after which nothing is left to show.
pub Clean-add_error {ℓ} : {P : Type ℓ} (e : Error) (c : Context) → Clean c P (add_errors (e ∷ []) c)
Clean-add_error e c = record {
  grows = Grows-add_errors (e ∷ []) c;
  unless = λ same. absurd (omega (arith, length-append c.errs (e ∷ []), same));
}

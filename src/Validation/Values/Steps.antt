-- ===== src/Validation/Values/Steps.antt =====
-- The steps of `validateValueType` of internal/validation/validation.go, one by one.
use graphql.Prelude.{
  String, Bool, true, false, not, ◌&&◌, ◌≡◌, ◌≢◌, refl, Option, none, some, List, [], ◌∷◌, Each,
  if◌then◌else◌,
}
use graphql.Lexer.Token.{TokenKind}
use graphql.Schema.Types.Parse.{SchemaType}
use graphql.Schema.Literals.Parse.{Literal, Fields}
use graphql.Schema.Literals.Evaluate.{Numbers}
use graphql.Schema.Values.Parse.{InputValueList}
use graphql.Schema.Definitions.{
  TypeDef, scalar_def, object_def, interface_def, union_def, enum_def, input_def,
}
use graphql.Validation.Errors.{Reason, Error}
use graphql.Validation.Values.{
  Verdict, valid, invalid, bad_number, Checked, and_then, judge, check_basic, check_other,
  validate_enum_lit, has_field, is_non_null, has_default, check_missing,
}
use graphql.Validation.Values.Spec.{Given, Accepts}

-- One step of a loop is valid if the item is and the rest is.
pub and_then-valid :
    (first : Verdict) (because : Reason → Reason) (errors : List Error) (rest : Checked)
    → (and_then first because errors rest).verdict ≡ valid
    → (first ≡ valid) × (rest.verdict ≡ valid)
and_then-valid valid because errors rest e = (refl, e)
and_then-valid (invalid r) because errors rest e = cc
and_then-valid bad_number because errors rest e = cc

pub valid-and_then :
    (first : Verdict) (because : Reason → Reason) (errors : List Error) (rest : Checked)
    → first ≡ valid
    → rest.verdict ≡ valid
    → (and_then first because errors rest).verdict ≡ valid
valid-and_then first because errors rest e h = rw e h

pub judge-valid :
    (num : Numbers) (o : Option Bool) (r : Reason) → judge num o r ≡ valid → o ≡ some true
judge-valid num none r e = cc
judge-valid num (some true) r e = refl
judge-valid num (some false) r e = cc

-- The test of the last loop, and what it stands for.
pub missing_test-false :
    (given required default : Bool)
    → (not given && (required && not default)) ≡ false
    → required ≡ true
    → default ≡ false
    → given ≡ true
missing_test-false true required default e r d = refl
missing_test-false false false default e r d = cc
missing_test-false false true true e r d = cc
missing_test-false false true false e r d = cc

pub false-missing_test :
    (given required default : Bool)
    → (required ≡ true → default ≡ false → given ≡ true)
    → (not given && (required && not default)) ≡ false
false-missing_test true required default h = refl
false-missing_test false false default h = refl
false-missing_test false true true h = refl
false-missing_test false true false h = let given = h refl refl in cc

pub if_invalid-valid :
    (b : Bool) (r : Reason) (v : Verdict)
    → (if b then invalid r else v) ≡ valid
    → (b ≡ false) × (v ≡ valid)
if_invalid-valid true r v e = cc
if_invalid-valid false r v e = (refl, e)

pub missing-Given :
    (fs : Fields) (decls : InputValueList) → check_missing fs decls ≡ valid → Each (Given fs) decls
unfolding check_missing
missing-Given fs [] e = tt
missing-Given fs (iv ∷ ivs) e =
    let (test, rest) = if_invalid-valid _ _ _ e in
    (missing_test-false _ _ _ test, missing-Given fs ivs rest)

pub Given-missing :
    (fs : Fields) (decls : InputValueList) → Each (Given fs) decls → check_missing fs decls ≡ valid
unfolding check_missing
Given-missing fs [] h = refl
Given-missing fs (iv ∷ ivs) h =
    rw
      (false-missing_test (has_field fs iv.name) (is_non_null iv.type) (has_default iv.default) h.0)
      (Given-missing fs ivs h.1)

pub enum-valid :
    (num : Numbers) (a b : Bool) (r : Reason)
    → judge num (some (if a then b else false)) r ≡ valid
    → (a ≡ true) × (b ≡ true)
enum-valid num true true r e = (refl, refl)
enum-valid num true false r e = cc
enum-valid num false b r e = cc

module _ (num : Numbers) where
  pub basic-Accepts :
      (kind : TokenKind) (text : String) (v : Literal) (t : SchemaType) (o : Option TypeDef)
      → check_basic num kind text v t o ≡ valid
      → (d : TypeDef) × (o ≡ some d) × Accepts num d kind text
  unfolding check_basic validate_enum_lit
  basic-Accepts kind text v t none e = cc
  basic-Accepts kind text v t (some (scalar_def d)) e = (scalar_def d, refl, judge-valid num _ _ e)
  basic-Accepts kind text v t (some (enum_def d)) e = (enum_def d, refl, enum-valid num _ _ _ e)
  basic-Accepts kind text v t (some (object_def d)) e = cc
  basic-Accepts kind text v t (some (interface_def d)) e = cc
  basic-Accepts kind text v t (some (union_def d)) e = cc
  basic-Accepts kind text v t (some (input_def d)) e = cc

  pub Accepts-basic :
      (kind : TokenKind) (text : String) (v : Literal) (t : SchemaType) (d : TypeDef)
      → Accepts num d kind text
      → check_basic num kind text v t (some d) ≡ valid
  unfolding check_basic validate_enum_lit
  Accepts-basic kind text v t (scalar_def d) h = rw h refl
  Accepts-basic kind text v t (enum_def d) h = rw h.0 (rw h.1 refl)
  Accepts-basic kind text v t (object_def d) h = absurd h
  Accepts-basic kind text v t (interface_def d) h = absurd h
  Accepts-basic kind text v t (union_def d) h = absurd h
  Accepts-basic kind text v t (input_def d) h = absurd h

  pub other-invalid :
      (v : Literal) (t : SchemaType) (o : Option TypeDef) → check_other num v t o ≢ valid
  unfolding check_other
  other-invalid v t none = cc
  other-invalid v t (some (scalar_def d)) = cc
  other-invalid v t (some (enum_def d)) = cc
  other-invalid v t (some (object_def d)) = cc
  other-invalid v t (some (interface_def d)) = cc
  other-invalid v t (some (union_def d)) = cc
  other-invalid v t (some (input_def d)) = cc

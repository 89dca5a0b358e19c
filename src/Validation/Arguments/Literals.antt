-- ===== src/Validation/Arguments/Literals.antt =====
-- About `validateLiteral` of internal/validation/validation.go, as far as the directives need it.
use graphql.Prelude.{ℕ, String, List, [], ◌∷◌, refl}
use graphql.Qerrors.{Location}
use graphql.Schema.Literals.Parse.{
  Literal, basic_lit, list_lit, object_lit, null_lit, variable, nil_literal, Literals, no_literals,
  literal, Fields, no_fields, field,
}
use graphql.Schema.Values.Parse.{get_input_value}
use graphql.Schema.Query.Parse.{Operation}
use graphql.Schema.Definitions.Alter.{if_some-elim}
use graphql.Validation.Errors.{Error, not_unique}
use graphql.Validation.Context.{
  Context, NameSet, validate_name, use_variable, validate_literal, validate_literal_entries,
  validate_literal_fields,
}
use graphql.Validation.Arguments.Clean.{
  Clean, Extends, Extends-same, Clean-then, Clean-map, Clean-same,
}
use graphql.Validation.Arguments.Names.{validate_name-Clean}

-- A step that adds to the errors of operations, or to the uses of variables.
adds :
    {c : Context} (op_errs : List (ℕ × Error)) (used_vars : List (ℕ × Location))
    → Extends c.op_errs op_errs
    → Extends c.used_vars used_vars
    → Clean c (Unit {0}) (record c { op_errs = op_errs; used_vars = used_vars })
adds {c = c} op_errs used_vars e h = record {
  grows = record { errors = Extends-same c.errs; op_errors = e; variables = h };
  unless = λ _. tt;
}

use_variable-Clean :
    (ops : List (ℕ × Operation)) (name : String) (loc : Location) (c : Context)
    → Clean c (Unit {0}) (use_variable ops name loc c)
unfolding use_variable
use_variable-Clean [] name loc c = Clean-same tt
use_variable-Clean ((i, op) ∷ ops) name loc c =
    if_some-elim (λ c'. Clean c (Unit {0}) (use_variable ops name loc c'))
      (get_input_value op.vars _)
      (λ v.
        Clean-map (λ _. tt)
          (Clean-then (adds _ _ (Extends-same _) (_, refl)) (use_variable-Clean ops name loc _)))
      (Clean-map (λ _. tt)
        (Clean-then (adds _ _ (_, refl) (Extends-same _)) (use_variable-Clean ops name loc _)))

module _ (ops : List (ℕ × Operation)) where
  mutual
    unfolding validate_literal validate_literal_entries validate_literal_fields

    pub literal-Clean : (l : Literal) (c : Context) → Clean c (Unit {0}) (validate_literal ops l c)
    literal-Clean (object_lit fs loc) c = literal_fields-Clean [] fs c
    literal-Clean (list_lit vs loc) c = literal_entries-Clean vs c
    literal-Clean (variable name loc) c = use_variable-Clean ops name loc c
    literal-Clean (basic_lit kind text loc) c = Clean-same tt
    literal-Clean (null_lit loc) c = Clean-same tt
    literal-Clean nil_literal c = Clean-same tt

    literal_entries-Clean :
        (vs : Literals) (c : Context) → Clean c (Unit {0}) (validate_literal_entries ops vs c)
    literal_entries-Clean no_literals c = Clean-same tt
    literal_entries-Clean (literal v vs) c =
        Clean-map (λ _. tt)
          (Clean-then (literal-Clean v c) (literal_entries-Clean vs (validate_literal ops v c)))

    literal_fields-Clean :
        (names : NameSet) (fs : Fields) (c : Context)
        → Clean c (Unit {0}) (validate_literal_fields ops names fs c)
    literal_fields-Clean names no_fields c = Clean-same tt
    literal_fields-Clean names (field name loc v fs) c =
        let next = validate_name names name loc (not_unique _ name) c in
        Clean-map (λ _. tt)
          (Clean-then (validate_name-Clean names name loc _ c) (
            Clean-then (literal-Clean v next.1)
              (literal_fields-Clean next.0 fs (validate_literal ops v next.1))))

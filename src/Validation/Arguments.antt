-- ===== src/Validation/Arguments.antt =====
-- internal/validation/validation.go: `validateArgumentLiterals`, `validateArgumentTypes` and
-- `validateDirectives`.
pub mod Clean
pub mod Names
pub mod Literals
pub mod Fit
use graphql.Prelude.{
  ℕ, String, Bool, List, [], ◌∷◌, ◌++◌, Option, none, some, ◌==◌, if◌then◌else◌, map,
}
use graphql.Prelude.Result
use graphql.Prelude.Result.{Result, ok, raised}
use graphql.Qerrors.{Location}
use graphql.Schema.Types.Parse.{SchemaType}
use graphql.Schema.Literals.Parse.{
  Literal, basic_lit, list_lit, object_lit, null_lit, variable, nil_literal,
}
use graphql.Schema.Literals.Evaluate.{Numbers, Panic, bad_number, nil_dereference}
use graphql.Schema.Values.Parse.{
  Argument, ArgumentList, Directive, DirectiveList, InputValue, InputValueList, get_argument,
  get_input_value,
}
use graphql.Schema.Query.Parse.{Operation}
use graphql.Schema.Definitions.{DirectiveDecl, Schema}
use graphql.Schema.Definitions.Maps.{find}
use graphql.Schema.Definitions.Alter.{if_some, has_string}
use graphql.Validation.Errors.{
  unique_argument_names, unique_directives, Owner, of_directive, Problem, not_unique,
  unknown_argument, invalid_argument_value, argument_required, unknown_directive,
  misplaced_directive,
}
use graphql.Validation.Values.{Verdict, valid, invalid, Checked, check_value, is_non_null}
use graphql.Validation.Context.{
  Context, add_errors, add_error, NameSet, validate_name, validate_literal,
}

-- `Location` of a literal.
abbrev pub location_of : Literal → Option Location
location_of (basic_lit kind text loc) = some loc
location_of (list_lit vs loc) = some loc
location_of (object_lit fs loc) = some loc
location_of (null_lit loc) = some loc
location_of (variable name loc) = some loc
location_of nil_literal = none

module _ (num : Numbers) (schema : Schema) (ops : List (ℕ × Operation)) where
  -- The loop of `validateArgumentLiterals`, with the names so far.
  unfoldable pub validate_argument_literals : NameSet → ArgumentList → Context → Context
  validate_argument_literals names [] c = c
  validate_argument_literals names (arg ∷ args) c =
      let next =
        validate_name names arg.name arg.name_loc (not_unique unique_argument_names arg.name) c in
      validate_argument_literals next.0 args (validate_literal ops arg.value next.1)

  -- What follows a call of `validateValueType` in `validateArgumentTypes`.
  unfoldable pub report_value : Argument → InputValue → Checked → Context → Result Panic Context
  report_value arg decl r c = elim r.verdict [
    | valid ↦ ok (add_errors r.errors c)
    | invalid reason ↦
        if_some (location_of arg.value)
          (λ loc. ok (
            add_error (loc ∷ []) (invalid_argument_value decl.name arg.value reason)
              (add_errors r.errors c)))
          (raised nil_dereference)
    | Verdict.bad_number ↦ raised bad_number
  ]

  -- One round of the first loop of `validateArgumentTypes`,
  unfoldable pub validate_argument :
      Owner → InputValueList → Argument → Context → Result Panic Context
  validate_argument owner decls arg c =
      if_some (get_input_value decls arg.name)
        (λ decl.
          report_value arg decl
            (check_value schema.types num (map (λ op. op.1) ops) arg.value decl.type) c)
        (ok (add_error (arg.name_loc ∷ []) (unknown_argument arg.name owner) c))

  -- the two loops,
  unfoldable pub validate_given :
      Owner → InputValueList → ArgumentList → Context → Result Panic Context
  validate_given owner decls [] c = ok c
  validate_given owner decls (arg ∷ args) c =
      Result.bind (validate_argument owner decls arg c) (validate_given owner decls args)

  unfoldable pub validate_required :
      Owner → Location → ArgumentList → InputValueList → Context → Context
  validate_required owner loc args [] c = c
  validate_required owner loc args (decl ∷ decls) c = validate_required owner loc args decls (
      if is_non_null decl.type
      then if_some (get_argument args decl.name) (λ _. c)
          (add_error (loc ∷ []) (argument_required owner decl.name decl.type) c)
      else c)

  -- and the function.
  unfoldable pub validate_argument_types :
      ArgumentList → InputValueList → Location → Owner → Context → Result Panic Context
  validate_argument_types args decls loc owner c =
      Result.bind (validate_given owner decls args c)
        λ c'. ok (validate_required owner loc args decls c')

  -- What `validateDirectives` does with the declaration of a directive.
  unfoldable pub validate_declared :
      String → Directive → DirectiveDecl → Context → Result Panic Context
  validate_declared loc d dd c =
      validate_argument_types d.args dd.args d.name_loc (of_directive d.name) (
        if has_string dd.locs loc
        then c
        else add_error (d.name_loc ∷ []) (misplaced_directive d.name loc) c)

  -- One round of the loop of `validateDirectives`, behind its first call,
  unfoldable pub validate_directive : String → Directive → Context → Result Panic Context
  validate_directive loc d c =
      let c' = validate_argument_literals [] d.args c in
      if_some (find ◌==◌ schema.declared_directives d.name)
        (λ entry. if_some entry (λ dd. validate_declared loc d dd c') (raised nil_dereference))
        (ok (add_error (d.name_loc ∷ []) (unknown_directive d.name) c'))

  -- the loop, with the names so far, and the function.
  unfoldable pub validate_directives_loop :
      NameSet → String → DirectiveList → Context → Result Panic Context
  validate_directives_loop names loc [] c = ok c
  validate_directives_loop names loc (d ∷ ds) c =
      let next = validate_name names d.name d.name_loc (not_unique unique_directives d.name) c in
      Result.bind (validate_directive loc d next.1) (validate_directives_loop next.0 loc ds)

  unfoldable pub validate_directives : String → DirectiveList → Context → Result Panic Context
  validate_directives loc ds c = validate_directives_loop [] loc ds c

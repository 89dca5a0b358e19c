-- ===== src/Validation/Context.antt =====
-- internal/validation/validation.go: the context that the errors are added to, `validateName` and
-- `validateLiteral`. An operation is known by its place in the document, and a variable of one by
-- its position in the text, for which the code has pointers.
use graphql.Prelude.{ℕ, String, List, [], ◌∷◌, ◌++◌, ◌==◌}
use Prim.Native.String.{◌++◌ as ◌concat◌}
use graphql.Qerrors.{Location}
use graphql.Schema.Literals.Parse.{
  Literal, list_lit, object_lit, variable, Literals, no_literals, literal, Fields, no_fields, field,
}
use graphql.Schema.Values.Parse.{get_input_value}
use graphql.Schema.Query.Parse.{Operation}
use graphql.Schema.Definitions.Maps.{find, assign}
use graphql.Schema.Definitions.Alter.{if_some}
use graphql.Validation.Errors.{
  unique_input_field_names, Problem, not_unique, undefined_variable, Error,
}

-- What `context` collects: its errors, those of each operation, and the variables used in each.
pub record Context : Type 0 where
  pub errs : List Error
  pub op_errs : List (ℕ × Error)
  pub used_vars : List (ℕ × Location)

-- `addErrMultiLoc` and `addErr`.
abbrev pub add_errors : List Error → Context → Context
add_errors new c = record c { errs = c.errs ++ new }

abbrev pub add_error : List Location → Problem → Context → Context
add_error locs problem = add_errors (record { locations = locs; problem = problem } ∷ [])

-- `nameSet`.
abbrev pub NameSet : Type 0
NameSet = List (String × Location)

-- `validateNameCustomMsg`: both positions are that of the first declaration.
unfoldable pub validate_name : NameSet → String → Location → Problem → Context → NameSet × Context
validate_name names name loc problem c =
    if_some (find ◌==◌ names name) (λ first. (names, add_error (first ∷ first ∷ []) problem c))
      (assign ◌==◌ names name loc, c)

-- The loop over the operations for a variable.
unfoldable pub use_variable : List (ℕ × Operation) → String → Location → Context → Context
use_variable [] name loc c = c
use_variable ((i, op) ∷ ops) name loc c = use_variable ops name loc (
    if_some (get_input_value op.vars (◌concat◌ "$" name))
      (λ v. record c { used_vars = c.used_vars ++ (i, v.loc) ∷ [] })
      (record c {
        op_errs =
            c.op_errs
            ++ (
              i,
              record {
                locations = loc ∷ op.loc ∷ [];
                problem = undefined_variable (◌concat◌ "$" name) op.name;
              },
            )
              ∷ [];
      }))

module _ (ops : List (ℕ × Operation)) where
  -- `validateLiteral`.
  unfoldable mutual
    pub validate_literal : Literal → Context → Context
    validate_literal (object_lit fs loc) c = validate_literal_fields [] fs c
    validate_literal (list_lit vs loc) c = validate_literal_entries vs c
    validate_literal (variable name loc) c = use_variable ops name loc c
    validate_literal _ c = c

    pub validate_literal_entries : Literals → Context → Context
    validate_literal_entries no_literals c = c
    validate_literal_entries (literal v vs) c = validate_literal_entries vs (validate_literal v c)

    pub validate_literal_fields : NameSet → Fields → Context → Context
    validate_literal_fields names no_fields c = c
    validate_literal_fields names (field name loc v fs) c =
        let next = validate_name names name loc (not_unique unique_input_field_names name) c in
        validate_literal_fields next.0 fs (validate_literal v next.1)

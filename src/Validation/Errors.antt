-- ===== src/Validation/Errors.antt =====
-- internal/validation/validation.go: the errors, as values in place of texts. The rule that an error
-- names is given by its constructor.
use graphql.Prelude.{ℕ, String, List, [], ◌∷◌, Option}
use graphql.Qerrors.{Location}
use graphql.Schema.Types.Parse.{NamedType, SchemaType}
use graphql.Schema.Literals.Parse.{Literal}

-- The reasons of `validateValueType`.
pub data Reason : Type 0 where
  expected_found_null : SchemaType → Reason
  expected_type : SchemaType → Literal → Reason
  not_an_object : SchemaType → Reason
  in_element : ℕ → Reason → Reason
  in_field : String → Reason → Reason
  unknown_field : Reason
  missing_value : SchemaType → Reason

-- The rules under which a name may stand once only.
pub data UniqueRule : Type 0 where
  unique_operation_names unique_variable_names unique_fragment_names : UniqueRule
  unique_argument_names unique_input_field_names unique_directives : UniqueRule

-- What an argument belongs to.
pub data Owner : Type 0 where
  of_directive : String → Owner
  of_field : String → Option NamedType → Owner

pub data Problem : Type 0 where
  not_unique : UniqueRule → String → Problem
  unknown_argument : String → Owner → Problem
  invalid_argument_value : String → Literal → Reason → Problem
  argument_required : Owner → String → SchemaType → Problem
  unknown_directive : String → Problem
  misplaced_directive : (name place : String) → Problem
  undefined_variable : (name operation : String) → Problem
  variable_in_position : String → (type expected : SchemaType) → Problem
  fragment_cycle : String → (via : List String) → Problem

-- `qerrors.Error`, as `addErrMultiLoc` makes it.
pub record Error : Type 0 where
  pub locations : List Location
  pub problem : Problem

abbrev pub error_at : Location → Problem → Error
error_at loc problem = record { locations = loc ∷ []; problem = problem }

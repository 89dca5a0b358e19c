-- ===== src/Validation/Values.antt =====
-- internal/validation/validation.go: `validateValueType` and `validateBasicLit`.
pub mod Spec
pub mod Steps
pub mod Sound
pub mod Valid
use graphql.Prelude.{
  ℕ, suc, ◌+◌, String, Bool, true, false, List, [], ◌∷◌, ◌++◌, Option, none, some, if◌then◌else◌,
  ◌==◌, ◌&&◌, ◌||◌, not,
}
use graphql.Prelude.Result.{Result, ok, raised, out_of_fuel}
use graphql.Qerrors.{Location}
use graphql.Lexer.Token.{TokenKind, ident, int, float, string, block_string, same_kind}
use graphql.Schema.Types.Parse.{
  NamedType, SchemaType, list, non_null, type_name, named, UnknownType, resolve_type,
}
use Prim.Native.String.{◌++◌ as ◌concat◌}
use graphql.Schema.Literals.Parse.{
  Literal, basic_lit, list_lit, object_lit, null_lit, variable, nil_literal, Literals, no_literals,
  literal, Fields, no_fields, field,
}
use graphql.Schema.Literals.Evaluate.{Numbers}
use graphql.Schema.Values.Parse.{InputValue, InputValueList, get_input_value}
use graphql.Schema.Query.Parse.{Operation}
use graphql.Schema.Definitions.{
  Scalar, EnumValue, Enum, TypeDef, scalar_def, object_def, interface_def, union_def, enum_def,
  input_def,
}
use graphql.Schema.Definitions.Maps.{find}
use graphql.Schema.Definitions.Alter.{TypeMap, if_some}
use graphql.Schema.Definitions.Resolve.{resolve}
use graphql.Validation.Types.{type_can_be_used_as}
use graphql.Validation.Errors.{
  Reason, expected_found_null, expected_type, not_an_object, in_element, in_field, unknown_field,
  missing_value, variable_in_position, Error,
}

-- What `validateValueType` returns, and the panic of `validateBasicLit`.
pub data Verdict : Type 0 where
  valid : Verdict
  invalid : Reason → Verdict
  bad_number : Verdict

-- The verdict, with the errors that are added to the context on the way.
pub record Checked : Type 0 where
  pub errors : List Error
  pub verdict : Verdict

abbrev pub checked : Verdict → Checked
checked verdict = record { errors = []; verdict = verdict }

-- `if ok, reason := …; !ok { return false, … }`, and what follows.
abbrev pub and_then : Verdict → (Reason → Reason) → List Error → Checked → Checked
and_then valid because errors rest = record rest { errors = errors ++ rest.errors }
and_then (invalid r) because errors rest = record { errors = errors; verdict = invalid (because r) }
and_then bad_number because errors rest = record { errors = errors; verdict = bad_number }

unfoldable pub enum_has : List EnumValue → String → Bool
enum_has [] name = false
enum_has (v ∷ l) name = if v.name == name then true else enum_has l name

module _ (num : Numbers) where
  abbrev pub is_int32 : Option num.Float → Option Bool
  is_int32 none = none
  is_int32 (some n) = some (num.in_int32 n)

  -- `validateBasicLit` on a scalar and on an enum; `none` is a panic.
  unfoldable pub validate_scalar_lit : TokenKind → String → String → Option Bool
  validate_scalar_lit kind text name =
      if name == "Int"
      then (if same_kind kind int then is_int32 (num.parse_float text) else some false)
      else if name == "Float"
      then some (same_kind kind int || same_kind kind float)
      else if name == "String"
      then some (same_kind kind string || same_kind kind block_string)
      else if name == "Boolean"
      then some (same_kind kind ident && (text == "true" || text == "false"))
      else if name == "ID"
      then some (same_kind kind int || same_kind kind string || same_kind kind block_string)
      else some true

  unfoldable pub validate_enum_lit : TokenKind → String → List EnumValue → Option Bool
  validate_enum_lit kind text values =
      some (if same_kind kind ident then enum_has values text else false)

  abbrev pub judge : Option Bool → Reason → Verdict
  judge none r = bad_number
  judge (some true) r = valid
  judge (some false) r = invalid r

  -- The `switch` over the type for a literal that is no list and no object,
  unfoldable pub check_basic : TokenKind → String → Literal → SchemaType → Option TypeDef → Verdict
  check_basic kind text v t (some (scalar_def d)) =
      judge (validate_scalar_lit kind text d.name) (expected_type t v)
  check_basic kind text v t (some (enum_def d)) =
      judge (validate_enum_lit kind text d.values) (expected_type t v)
  check_basic kind text v t (some (input_def d)) = invalid (not_an_object t)
  check_basic kind text v t _ = invalid (expected_type t v)

  -- and for one that no scalar or enum accepts.
  unfoldable pub check_other : Literal → SchemaType → Option TypeDef → Verdict
  check_other v t (some (input_def d)) = invalid (not_an_object t)
  check_other v t _ = invalid (expected_type t v)

-- Whether an object has a field, as the loops over the fields find out.
unfoldable pub has_field : Fields → String → Bool
has_field no_fields name = false
has_field (field n loc v fs) name = if n == name then true else has_field fs name

abbrev pub is_non_null : SchemaType → Bool
is_non_null (non_null t) = true
is_non_null _ = false

abbrev pub has_default : Option (Literal) → Bool
has_default none = false
has_default (some _) = true

-- The last loop over the fields of an input object.
unfoldable pub check_missing : Fields → InputValueList → Verdict
check_missing fs [] = valid
check_missing fs (iv ∷ ivs) =
    if not (has_field fs iv.name) && (is_non_null iv.type && not (has_default iv.default))
    then invalid (in_field iv.name (missing_value iv.type))
    else check_missing fs ivs

-- What a type is in the schema, if it is a named type.
unfoldable pub look_up_type : TypeMap → SchemaType → Option TypeDef
look_up_type types (named n) = find ◌==◌ types n.name
look_up_type types _ = none

-- The type of a variable, with "!" if it has a default.
unfoldable pub effective_type : SchemaType → Option Literal → SchemaType
effective_type (non_null t) default = non_null t
effective_type t none = t
effective_type t (some _) = non_null t

abbrev pub use_errors :
    Result UnknownType SchemaType → InputValue → String → Location → SchemaType → List Error
use_errors (ok t) v name loc expected =
    let t2 = effective_type t v.default in
    if type_can_be_used_as t2 expected
    then []
    else record { locations = v.loc ∷ loc ∷ []; problem = variable_in_position name t2 expected }
      ∷ []
use_errors _ v name loc expected = []

module _ (types : TypeMap) where
  -- The loop over the operations for a variable.
  unfoldable pub variable_errors : List Operation → String → Location → SchemaType → List Error
  variable_errors [] name loc expected = []
  variable_errors (op ∷ ops) name loc expected =
      if_some (get_input_value op.vars name)
        (λ v. use_errors (resolve_type (resolve types) v.type) v name loc expected) []
      ++ variable_errors ops name loc expected

  -- The case of an input object.
  abbrev pub check_object :
      Literal → SchemaType → Option TypeDef → (InputValueList → Checked) → Checked
  check_object v t (some (input_def d)) check = check d.fields
  check_object v t _ check = checked (invalid (expected_type t v))

  module _ (num : Numbers) (ops : List Operation) where
    -- `validateValueType`; `check_entries` is the loop over a list, and `check_fields` are those over
    -- an object.
    unfoldable mutual
      unfolding look_up_type

      pub check_value : Literal → SchemaType → Checked
      check_value (variable name loc) t = record {
        errors = variable_errors ops (◌concat◌ "$" name) loc t;
        verdict = valid;
      }
      check_value (null_lit loc) (non_null t) = checked (invalid (expected_found_null (non_null t)))
      check_value (null_lit loc) t = checked valid
      check_value (basic_lit kind text loc) (list t) = check_value (basic_lit kind text loc) t
      check_value (basic_lit kind text loc) (non_null (list t)) =
          check_value (basic_lit kind text loc) t
      check_value (basic_lit kind text loc) (non_null t) =
          checked (check_basic num kind text (basic_lit kind text loc) t (look_up_type types t))
      check_value (basic_lit kind text loc) t =
          checked (check_basic num kind text (basic_lit kind text loc) t (look_up_type types t))
      check_value (list_lit vs loc) (list t) = check_entries 0 vs t
      check_value (list_lit vs loc) (non_null (list t)) = check_entries 0 vs t
      check_value (list_lit vs loc) (non_null t) =
          checked (check_other num (list_lit vs loc) t (look_up_type types t))
      check_value (list_lit vs loc) t =
          checked (check_other num (list_lit vs loc) t (look_up_type types t))
      check_value (object_lit fs loc) (list t) = check_value (object_lit fs loc) t
      check_value (object_lit fs loc) (non_null (list t)) = check_value (object_lit fs loc) t
      check_value (object_lit fs loc) (non_null t) =
          check_object (object_lit fs loc) t (look_up_type types t) (check_fields fs fs)
      check_value (object_lit fs loc) t =
          check_object (object_lit fs loc) t (look_up_type types t) (check_fields fs fs)
      check_value nil_literal (list t) = check_value nil_literal t
      check_value nil_literal (non_null (list t)) = check_value nil_literal t
      check_value nil_literal (non_null t) =
          checked (check_other num nil_literal t (look_up_type types t))
      check_value nil_literal t = checked (check_other num nil_literal t (look_up_type types t))

      pub check_entries : ℕ → Literals → SchemaType → Checked
      check_entries n no_literals t = checked valid
      check_entries n (literal v vs) t =
          let first = check_value v t in
          and_then first.verdict (in_element n) first.errors (check_entries (suc n) vs t)

      pub check_fields : (all rest : Fields) → InputValueList → Checked
      check_fields all no_fields decls = checked (check_missing all decls)
      check_fields all (field name loc v fs) decls =
          if_some (get_input_value decls name)
            (λ iv.
              let first = check_value v iv.type in
              and_then first.verdict (in_field name) first.errors (check_fields all fs decls))
            (checked (invalid (in_field name unknown_field)))

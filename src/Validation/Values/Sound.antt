-- ===== src/Validation/Values/Sound.antt =====
-- About `validateValueType` of internal/validation/validation.go: from the verdict to the type.
use graphql.Prelude.{String, ◌≡◌, refl, Option, none, some, List, Each, ℕ, suc}
use graphql.Qerrors.{Location}
use graphql.Lexer.Token.{TokenKind}
use graphql.Schema.Types.Parse.{SchemaType, list, non_null, type_name, named}
use graphql.Schema.Literals.Parse.{
  Literal, basic_lit, list_lit, object_lit, null_lit, variable, nil_literal, Literals, no_literals,
  literal, Fields, no_fields, field,
}
use graphql.Schema.Literals.Evaluate.{Numbers}
use graphql.Schema.Values.Parse.{InputValue, InputValueList}
use graphql.Schema.Query.Parse.{Operation}
use graphql.Schema.Definitions.{
  InputObject, TypeDef, scalar_def, object_def, interface_def, union_def, enum_def, input_def,
}
use graphql.Schema.Definitions.Alter.{TypeMap, if_some}
use graphql.Validation.Errors.{in_field, unknown_field}
use graphql.Validation.Values.{
  valid, invalid, Checked, checked, check_basic, look_up_type, check_object, check_value,
  check_entries, check_fields,
}
use graphql.Validation.Values.Spec.{
  basic_single, object_single, basic_plain, list_plain, object_plain, Given, HasType, variable_fits,
  null_fits, basic_fits, single_fits, bang_fits, list_fits, object_fits, EntriesFit, no_entries,
  entry, FieldsFit, none_left, one_more,
}
use graphql.Validation.Values.Steps.{and_then-valid, missing-Given, basic-Accepts, other-invalid}

module _ (num : Numbers) where
  module _ (types : TypeMap) (ops : List Operation) where
    abbrev pub Accepted : Literal → SchemaType → Type 0
    Accepted v t = (check_value types num ops v t).verdict ≡ valid

    nil-refused : (t : SchemaType) → ¬ (Accepted nil_literal t)
    unfolding check_value look_up_type
    nil-refused (list t) = nil-refused t
    nil-refused (non_null (list t)) = nil-refused t
    nil-refused (non_null (named n)) = other-invalid num _ _ _
    nil-refused (non_null (type_name n l)) = other-invalid num _ _ _
    nil-refused (non_null (non_null t)) = other-invalid num _ _ _
    nil-refused (named n) = other-invalid num _ _ _
    nil-refused (type_name n l) = other-invalid num _ _ _

    basic-HasType :
        (kind : TokenKind) (text : String) (loc : Location) (t : SchemaType)
        → check_basic num kind text (basic_lit kind text loc) t (look_up_type types t) ≡ valid
        → HasType num types (basic_lit kind text loc) t
    basic-HasType kind text loc t e =
        let (d, found, ok_d) = basic-Accepts num kind text _ t _ e in basic_fits found ok_d

    object-found :
        (v : Literal) (t : SchemaType) (o : Option TypeDef) (check : InputValueList → Checked)
        → (check_object types v t o check).verdict ≡ valid
        → (d : InputObject) × (o ≡ some (input_def d)) × ((check d.fields).verdict ≡ valid)
    object-found v t none check e = cc
    object-found v t (some (input_def d)) check e = (d, refl, e)
    object-found v t (some (scalar_def d)) check e = cc
    object-found v t (some (enum_def d)) check e = cc
    object-found v t (some (object_def d)) check e = cc
    object-found v t (some (interface_def d)) check e = cc
    object-found v t (some (union_def d)) check e = cc

    -- The loops over the fields, which end with the test for missing ones.
    abbrev pub FieldsAccepted : (all rest : Fields) → InputValueList → Type 0
    FieldsAccepted all rest decls = (check_fields types num ops all rest decls).verdict ≡ valid

    field-step :
        (o : Option InputValue) (check : InputValue → Checked) (name : String)
        → (if_some o check (checked (invalid (in_field name unknown_field)))).verdict ≡ valid
        → (iv : InputValue) × (o ≡ some iv) × ((check iv).verdict ≡ valid)
    field-step none check name e = cc
    field-step (some iv) check name e = (iv, refl, e)

    mutual
      unfolding check_value check_entries check_fields look_up_type

      pub sound : (v : Literal) (t : SchemaType) → Accepted v t → HasType num types v t
      sound (variable name loc) t e = variable_fits
      sound (null_lit loc) (non_null t) e = cc
      sound (null_lit loc) (list t) e = null_fits refl
      sound (null_lit loc) (named n) e = null_fits refl
      sound (null_lit loc) (type_name n l) e = null_fits refl
      sound (basic_lit kind text loc) (list t) e =
          single_fits basic_single (sound (basic_lit kind text loc) t e)
      sound (basic_lit kind text loc) (non_null (list t)) e =
          bang_fits basic_plain refl
            (single_fits basic_single (sound (basic_lit kind text loc) t e))
      sound (basic_lit kind text loc) (non_null (named n)) e =
          bang_fits basic_plain refl (basic-HasType kind text loc (named n) e)
      sound (basic_lit kind text loc) (non_null (type_name n l)) e =
          bang_fits basic_plain refl (basic-HasType kind text loc (type_name n l) e)
      sound (basic_lit kind text loc) (non_null (non_null t)) e =
          let (d, found, ok_d) = basic-Accepts num kind text _ (non_null t) none e in cc
      sound (basic_lit kind text loc) (named n) e = basic-HasType kind text loc (named n) e
      sound (basic_lit kind text loc) (type_name n l) e =
          basic-HasType kind text loc (type_name n l) e
      sound (list_lit vs loc) (list t) e = list_fits (entries_sound 0 vs t e)
      sound (list_lit vs loc) (non_null (list t)) e =
          bang_fits list_plain refl (list_fits (entries_sound 0 vs t e))
      sound (list_lit vs loc) (non_null (named n)) e = absurd (other-invalid num _ _ _ e)
      sound (list_lit vs loc) (non_null (type_name n l)) e = absurd (other-invalid num _ _ _ e)
      sound (list_lit vs loc) (non_null (non_null t)) e = absurd (other-invalid num _ _ _ e)
      sound (list_lit vs loc) (named n) e = absurd (other-invalid num _ _ _ e)
      sound (list_lit vs loc) (type_name n l) e = absurd (other-invalid num _ _ _ e)
      sound (object_lit fs loc) (list t) e =
          single_fits object_single (sound (object_lit fs loc) t e)
      sound (object_lit fs loc) (non_null (list t)) e =
          bang_fits object_plain refl (single_fits object_single (sound (object_lit fs loc) t e))
      sound (object_lit fs loc) (non_null (named n)) e =
          let (d, found, inner) = object-found _ _ _ _ e in
          let (fit, given) = fields_sound fs fs d.fields inner in
          bang_fits object_plain refl (object_fits found fit given)
      sound (object_lit fs loc) (non_null (type_name n l)) e = cc
      sound (object_lit fs loc) (non_null (non_null t)) e = cc
      sound (object_lit fs loc) (named n) e =
          let (d, found, inner) = object-found _ _ _ _ e in
          let (fit, given) = fields_sound fs fs d.fields inner in object_fits found fit given
      sound (object_lit fs loc) (type_name n l) e = cc
      sound nil_literal t e = absurd (nil-refused t e)

      entries_sound :
          (n : ℕ) (vs : Literals) (t : SchemaType)
          → (check_entries types num ops n vs t).verdict ≡ valid
          → EntriesFit num types vs t
      entries_sound n no_literals t e = no_entries
      entries_sound n (literal v vs) t e =
          let (first, rest) = and_then-valid _ _ _ _ e in
          entry (sound v t first) (entries_sound (suc n) vs t rest)

      fields_sound :
          (all rest : Fields) (decls : InputValueList)
          → FieldsAccepted all rest decls
          → FieldsFit num types rest decls × Each (Given all) decls
      fields_sound all no_fields decls e = (none_left, missing-Given all decls e)
      fields_sound all (field name loc v fs) decls e =
          let (iv, found, step) = field-step _ _ _ e in
          let (first, more) = and_then-valid _ _ _ _ step in
          let (fit, given) = fields_sound all fs decls more in
          (one_more found (sound v iv.type first) fit, given)

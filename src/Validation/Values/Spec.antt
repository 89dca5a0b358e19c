-- ===== src/Validation/Values/Spec.antt =====
-- Which literals a type takes, on its own.
use graphql.Prelude.{String, true, false, ◌≡◌, some, Each}
use graphql.Qerrors.{Location}
use graphql.Lexer.Token.{TokenKind, ident, same_kind}
use graphql.Schema.Types.Parse.{SchemaType, list, non_null}
use graphql.Schema.Literals.Parse.{
  Literal, basic_lit, list_lit, object_lit, null_lit, variable, Literals, no_literals, literal,
  Fields, no_fields, field,
}
use graphql.Schema.Literals.Evaluate.{Numbers}
use graphql.Schema.Values.Parse.{InputValue, InputValueList, get_input_value}
use graphql.Schema.Definitions.{InputObject, TypeDef, scalar_def, enum_def, input_def}
use graphql.Schema.Definitions.Alter.{TypeMap}
use graphql.Validation.Values.{
  validate_scalar_lit, enum_has, has_field, is_non_null, has_default, look_up_type,
}

-- A literal that a list type takes in place of a list of one.
pub data IsSingle : Literal → Type 0 where
  basic_single :
      {kind : TokenKind} {text : String} {loc : Location} → IsSingle (basic_lit kind text loc)
  object_single : {fs : Fields} {loc : Location} → IsSingle (object_lit fs loc)

-- A literal that is neither null nor a variable.
pub data IsPlain : Literal → Type 0 where
  basic_plain :
      {kind : TokenKind} {text : String} {loc : Location} → IsPlain (basic_lit kind text loc)
  list_plain : {vs : Literals} {loc : Location} → IsPlain (list_lit vs loc)
  object_plain : {fs : Fields} {loc : Location} → IsPlain (object_lit fs loc)

-- A field that an object must give is given.
abbrev pub Given : Fields → InputValue → Type 0
Given fs iv =
    is_non_null iv.type ≡ true → has_default iv.default ≡ false → has_field fs iv.name ≡ true

module _ (num : Numbers) where
  -- The basic literals of scalars and of enums.
  abbrev pub Accepts : TypeDef → TokenKind → String → Type 0
  Accepts (scalar_def d) kind text = validate_scalar_lit num kind text d.name ≡ some true
  Accepts (enum_def d) kind text = (same_kind kind ident ≡ true) × (enum_has d.values text ≡ true)
  Accepts _ kind text = ⊥

  module _ (types : TypeMap) where
    mutual
      -- `HasType v t`: the type `t` takes the literal `v`; a variable passes everywhere.
      pub data HasType : Literal → SchemaType → Type 0 where
        variable_fits :
            {name : String} {loc : Location} {t : SchemaType} → HasType (variable name loc) t
        null_fits :
            {loc : Location} {t : SchemaType} → is_non_null t ≡ false → HasType (null_lit loc) t
        basic_fits :
            {kind : TokenKind} {text : String} {loc : Location} {t : SchemaType} {d : TypeDef}
            → look_up_type types t ≡ some d
            → Accepts d kind text
            → HasType (basic_lit kind text loc) t
        single_fits : {v : Literal} {t : SchemaType} → IsSingle v → HasType v t → HasType v (list t)
        bang_fits :
            {v : Literal} {t : SchemaType}
            → IsPlain v
            → is_non_null t ≡ false
            → HasType v t
            → HasType v (non_null t)
        list_fits :
            {vs : Literals} {loc : Location} {t : SchemaType}
            → EntriesFit vs t
            → HasType (list_lit vs loc) (list t)
        object_fits :
            {fs : Fields} {loc : Location} {t : SchemaType} {d : InputObject}
            → look_up_type types t ≡ some (input_def d)
            → FieldsFit fs d.fields
            → Each (Given fs) d.fields
            → HasType (object_lit fs loc) t

      pub data EntriesFit : Literals → SchemaType → Type 0 where
        no_entries : {t : SchemaType} → EntriesFit no_literals t
        entry :
            {v : Literal} {vs : Literals} {t : SchemaType}
            → HasType v t
            → EntriesFit vs t
            → EntriesFit (literal v vs) t

      -- Every field is declared, and takes its value.
      pub data FieldsFit : Fields → InputValueList → Type 0 where
        none_left : {decls : InputValueList} → FieldsFit no_fields decls
        one_more :
            {name : String} {loc : Location} {v : Literal} {fs : Fields} {decls : InputValueList}
            {iv : InputValue}
            → get_input_value decls name ≡ some iv
            → HasType v iv.type
            → FieldsFit fs decls
            → FieldsFit (field name loc v fs) decls

-- ===== src/Schema/Definitions/Sort.antt =====
-- schema/schema.go: the methods `Sort`.
use graphql.Prelude.{String, List, map, text_lt}
use graphql.Lexer.Parser.{GoLibrary}
use graphql.Schema.Values.Parse.{Argument, Directive, DirectiveList, InputValue, InputValueList}
use graphql.Schema.Definitions.{
  Field, FieldList, EnumValue, TypeDef, scalar_def, object_def, interface_def, union_def, enum_def,
  input_def,
}

module _ (go : GoLibrary) where
  -- `Directive.Sort`.
  unfoldable pub sort_directive : Directive → Directive
  sort_directive d = record d {
    args = go.sort_slice Argument (λ (a b : Argument). text_lt a.name b.name) d.args;
  }

  -- `DirectiveList.Sort`, which the methods of `InputValue`, `EnumValue` and `Field` write out.
  unfoldable pub sort_directives : DirectiveList → DirectiveList
  sort_directives l =
      go.sort_slice Directive (λ (a b : Directive). text_lt a.name b.name) (map sort_directive l)

  -- `InputValue.Sort` and `InputValueList.Sort`.
  unfoldable pub sort_input_value : InputValue → InputValue
  sort_input_value v = record v { directives = sort_directives v.directives }

  unfoldable pub sort_input_values : InputValueList → InputValueList
  sort_input_values l =
      go.sort_slice InputValue (λ (a b : InputValue). text_lt a.name b.name)
        (map sort_input_value l)

  -- `EnumValue.Sort` and `EnumValueList.Sort`.
  unfoldable pub sort_enum_value : EnumValue → EnumValue
  sort_enum_value v = record v { directives = sort_directives v.directives }

  unfoldable pub sort_enum_values : List EnumValue → List EnumValue
  sort_enum_values l =
      go.sort_slice EnumValue (λ (a b : EnumValue). text_lt a.name b.name) (map sort_enum_value l)

  -- `Field.Sort`, which leaves the directives of the arguments as they are, and `FieldList.Sort`.
  unfoldable pub sort_field : Field → Field
  sort_field f = record f {
    args = go.sort_slice InputValue (λ (a b : InputValue). text_lt a.name b.name) f.args;
    directives = sort_directives f.directives;
  }

  unfoldable pub sort_fields : FieldList → FieldList
  sort_fields l = go.sort_slice Field (λ (a b : Field). text_lt a.name b.name) (map sort_field l)

  -- `Sort` of a type; a scalar has none.
  unfoldable pub sort_type : TypeDef → TypeDef
  unfolding sort_fields sort_input_values sort_enum_values
  sort_type (scalar_def t) = scalar_def t
  sort_type (object_def t) = object_def (record t {
    fields = sort_fields t.fields;
    directives = sort_directives t.directives;
    interface_names = go.sort_slice String text_lt t.interface_names;
  })
  sort_type (interface_def t) =
      interface_def
        (record t { fields = sort_fields t.fields; directives = sort_directives t.directives })
  sort_type (union_def t) = union_def (record t {
    directives = sort_directives t.directives;
    type_names = go.sort_slice String text_lt t.type_names;
  })
  sort_type (enum_def t) =
      enum_def
        (record t { directives = sort_directives t.directives; values = sort_enum_values t.values })
  sort_type (input_def t) =
      input_def (record t {
        fields = sort_input_values t.fields;
        directives = sort_directives t.directives;
      })

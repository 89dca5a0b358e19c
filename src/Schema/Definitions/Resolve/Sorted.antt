-- ===== src/Schema/Definitions/Resolve/Sorted.antt =====
-- About the methods `Sort` of schema/schema.go: sorting keeps the types of fields and arguments.
use graphql.Prelude.{Bool, List, Each, Each-map}
use graphql.Lexer.Parser.{GoLibrary}
use graphql.Schema.Types.Parse.{SchemaType}
use graphql.Schema.Values.Parse.{InputValueList}
use graphql.Schema.Definitions.{
  Field, FieldList, TypeDef, scalar_def, object_def, interface_def, union_def, enum_def, input_def,
}
use graphql.Schema.Definitions.Sort.{
  sort_input_value, sort_input_values, sort_field, sort_fields, sort_type,
}
use graphql.Schema.Definitions.Resolve.Sound.{InputsHave, FieldsHave, TypesHave}

-- `sort.Slice` only reorders: what holds of every item still does.
pub record SortLaws (go : GoLibrary) : Type 1 where
  pub sort_slice-Each :
      (A : Type 0) (less : A → A → Bool) (P : A → Type 0) (l : List A)
      → Each P l
      → Each P (go.sort_slice A less l)

module _ (go : GoLibrary) (laws : SortLaws go) where
  module _ (P : SchemaType → Type 0) where
    pub inputs-sorted :
        (l : InputValueList) → InputsHave P l → InputsHave P (sort_input_values go l)
    unfolding sort_input_values sort_input_value
    inputs-sorted l h = laws.sort_slice-Each _ _ _ _ (Each-map _ _ _ (λ v p. p) l h)

    field-sorted :
        (f : Field)
        → P f.type × InputsHave P f.args
        → P (sort_field go f).type × InputsHave P (sort_field go f).args
    unfolding sort_field
    field-sorted f h = (h.0, laws.sort_slice-Each _ _ _ _ h.1)

    pub fields-sorted : (l : FieldList) → FieldsHave P l → FieldsHave P (sort_fields go l)
    unfolding sort_fields
    fields-sorted l h = laws.sort_slice-Each _ _ _ _ (Each-map _ _ _ field-sorted l h)

    pub type-sorted : (t : TypeDef) → TypesHave P t → TypesHave P (sort_type go t)
    unfolding sort_type
    type-sorted (scalar_def t) h = tt
    type-sorted (object_def t) h = fields-sorted t.fields h
    type-sorted (interface_def t) h = fields-sorted t.fields h
    type-sorted (union_def t) h = tt
    type-sorted (enum_def t) h = tt
    type-sorted (input_def t) h = inputs-sorted t.fields h

-- ===== src/Schema/Definitions/Visit.antt =====
-- schema/schema.go: `VisitDirective`. The visitor changes a state of its own, or fails.
pub mod Places
use graphql.Prelude.{String, Bool, List, [], ◌∷◌, if◌then◌else◌}
use graphql.Prelude.Result
use graphql.Prelude.Result.{Result, ok}
use graphql.Schema.Values.Parse.{Directive, DirectiveList, InputValue, get_directive}
use graphql.Schema.Definitions.{
  Field, EnumValue, TypeDef, scalar_def, object_def, interface_def, union_def, enum_def, input_def,
  Schema, DirectiveDecl,
}
use graphql.Schema.Definitions.Alter.{has_string, if_some}

-- `HasDirectives`: what stands above a directive.
pub data Element : Type 0 where
  schema_element : Schema → Element
  type_element : TypeDef → Element
  field_element : Field → Element
  input_element : InputValue → Element
  value_element : EnumValue → Element

module _ {E S : Type 0} where
  -- A loop that stops at the first error.
  unfoldable pub for_each : {A : Type 0} → (A → S → Result E S) → List A → S → Result E S
  for_each act [] s = ok s
  for_each act (a ∷ l) s = Result.bind (act a s) (for_each act l)

  -- `if flag { … }`.
  abbrev pub when : Bool → (S → Result E S) → S → Result E S
  when flag act s = if flag then act s else ok s

  infixl 1 ◌then_do◌
  abbrev pub ◌then_do◌ : (S → Result E S) → (S → Result E S) → S → Result E S
  (first then_do second) s = Result.bind (first s) second

module _ {E S : Type 0} (visitor : Directive → List Element → S → Result E S) (decl : DirectiveDecl)
    (schema : Schema) where
  -- The closure `process`.
  unfoldable pub process : DirectiveList → List Element → S → Result E S
  process directives parents s =
      if_some (get_directive directives decl.name) (λ d. visitor d parents s) (ok s)

  -- The variables `searchSchema` and so on: whether a location is among those of the declaration.
  abbrev pub searches : String → Bool
  searches loc = has_string decl.locs loc

  -- The loops over the fields of an object or an interface, and over their arguments.
  unfoldable pub visit_fields : TypeDef → List Field → S → Result E S
  visit_fields t =
      for_each
        λ f. process f.directives (field_element f ∷ type_element t ∷ schema_element schema ∷ [])

  unfoldable pub visit_arguments : TypeDef → List Field → S → Result E S
  visit_arguments t = for_each λ f.
      for_each
        (λ a.
          process a.directives
            (input_element a ∷ field_element f ∷ type_element t ∷ schema_element schema ∷ []))
        f.args

  abbrev pub visit_own : TypeDef → DirectiveList → S → Result E S
  visit_own t directives = process directives (type_element t ∷ schema_element schema ∷ [])

  -- The `switch` over the types.
  unfoldable pub visit_type : TypeDef → S → Result E S
  unfolding visit_fields visit_arguments
  visit_type (scalar_def t) = when (searches "SCALAR") (visit_own (scalar_def t) t.directives)
  visit_type (object_def t) =
      when (searches "OBJECT") (visit_own (object_def t) t.directives)
      then_do when (searches "FIELD_DEFINITION") (visit_fields (object_def t) t.fields)
      then_do when (searches "ARGUMENT_DEFINITION") (visit_arguments (object_def t) t.fields)
  visit_type (interface_def t) =
      when (searches "INTERFACE") (visit_own (interface_def t) t.directives)
      then_do when (searches "FIELD_DEFINITION") (visit_fields (interface_def t) t.fields)
      then_do when (searches "ARGUMENT_DEFINITION") (visit_arguments (interface_def t) t.fields)
  visit_type (union_def t) = when (searches "UNION") (visit_own (union_def t) t.directives)
  visit_type (enum_def t) =
      when (searches "ENUM") (visit_own (enum_def t) t.directives)
      then_do when (searches "ENUM_VALUE") (
          for_each
            (λ (v : EnumValue).
              process v.directives
                (value_element v ∷ type_element (enum_def t) ∷ schema_element schema ∷ []))
            t.values)
  visit_type (input_def t) =
      when (searches "INPUT_OBJECT") (visit_own (input_def t) t.directives)
      then_do when (searches "INPUT_FIELD_DEFINITION") (
          for_each
            (λ (v : InputValue).
              process v.directives
                (input_element v ∷ type_element (input_def t) ∷ schema_element schema ∷ []))
            t.fields)

  -- `VisitDirective`.
  unfoldable pub visit_directive : S → Result E S
  unfolding visit_type
  visit_directive =
      when (searches "SCHEMA") (process schema.directives (schema_element schema ∷ []))
      then_do for_each (λ (entry : String × TypeDef). visit_type entry.1) schema.types

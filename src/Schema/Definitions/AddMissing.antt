-- ===== src/Schema/Definitions/AddMissing.antt =====
-- schema/type_add_if_missing.go: the methods `AddIfMissing`, from one schema to another. A pointer to a
-- type leads to the type that the first schema has under its name; the fuel bounds how deep types lie
-- in each other.
pub mod Kept
pub mod Merged
use graphql.Prelude.{ℕ, zero, suc, String, Bool, List, [], ◌∷◌, Option, none, some, ◌==◌}
use graphql.Prelude.Result
use graphql.Prelude.Result.{Result, ok, out_of_fuel}
use graphql.Schema.Types.Parse.{NamedType, SchemaType, list, non_null, type_name, named}
use graphql.Schema.Values.Parse.{Directive, DirectiveList, InputValue, InputValueList}
use graphql.Schema.Definitions.{
  Field, FieldList, EnumValue, TypeDef, scalar_def, object_def, interface_def, union_def, enum_def,
  input_def, name_of, DirectiveDecl, DirectiveMap, Schema,
}
use graphql.Schema.Definitions.Maps.{find, assign}
use graphql.Schema.Definitions.Alter.{if_some}
use graphql.Schema.Definitions.Document.{same_operation}
use graphql.Schema.Definitions.Visit.{for_each, ◌then_do◌}

-- A call changes the schema `to`.
abbrev pub Adding : Type 0
Adding = Schema → Result ⊥ Schema

-- `DeclaredDirectives[name]`, which is nil if there is no entry or a nil one.
unfoldable pub declared : DirectiveMap → String → Option DirectiveDecl
declared m name = if_some (find ◌==◌ m name) (λ entry. entry) none

module _ (from : Schema) where
  -- `DirectiveList.AddIfMissing`: for a directive that the first schema does not declare, the entry is
  -- nil.
  unfoldable pub add_directives : DirectiveList → Schema → Schema
  add_directives [] to = to
  add_directives (d ∷ ds) to = add_directives ds (
      let v = declared from.declared_directives d.name in
      if_some (declared to.declared_directives d.name) (λ _. to)
        (record to { declared_directives = assign ◌==◌ to.declared_directives d.name v }))

  abbrev pub adding_directives : DirectiveList → Adding
  adding_directives ds to = ok (add_directives ds to)

  -- The methods, given that of the type that a pointer leads to.
  module _ (add : TypeDef → Adding) where
    -- A type of the first schema,
    unfoldable pub add_named : String → Adding
    add_named name to = if_some (find ◌==◌ from.types name) (λ t. add t to) (ok to)

    -- `List`, `NonNull` and `TypeName`,
    unfoldable pub add_type : SchemaType → Adding
    add_type (list t) to = add_type t to
    add_type (non_null t) to = add_type t to
    add_type (type_name name loc) to = ok to
    add_type (named n) to = add_named n.name to

    -- `InputValue`,
    unfoldable pub add_input_value : InputValue → Adding
    add_input_value v = add_type v.type then_do adding_directives v.directives

    -- `Field`,
    unfoldable pub add_field : Field → Adding
    add_field f =
        adding_directives f.directives
        then_do add_type f.type
        then_do for_each add_input_value f.args

    -- and what each kind of type does behind the assignment.
    unfoldable pub add_parts : TypeDef → Adding
    add_parts (scalar_def t) to = ok to
    add_parts (object_def t) to =
        (adding_directives t.directives then_do for_each add_field t.fields) to
    add_parts (interface_def t) to =
        (adding_directives t.directives then_do for_each add_field t.fields) to
    add_parts (union_def t) to =
        (adding_directives t.directives then_do for_each add_named t.possible_types) to
    add_parts (enum_def t) to =
        (adding_directives t.directives
            then_do for_each (λ (v : EnumValue). adding_directives v.directives) t.values)
          to
    add_parts (input_def t) to =
        (adding_directives t.directives then_do for_each add_input_value t.fields) to

  -- `AddIfMissing` of a named type.
  unfoldable pub add_if_missing_type : ℕ → TypeDef → Adding
  add_if_missing_type zero t to = out_of_fuel
  add_if_missing_type (suc f) t to =
      if_some (find ◌==◌ to.types (name_of t)) (λ _. ok to)
        (add_parts (add_if_missing_type f) t
          (record to { types = assign ◌==◌ to.types (name_of t) t }))

-- One of the loops of `Schema.AddIfMissing`: the entries of the first map whose keys the second lacks.
unfoldable pub merge : {K V : Type 0} → (K → K → Bool) → List (K × V) → List (K × V) → List (K × V)
merge same [] to = to
merge same ((k, v) ∷ from) to =
    merge same from (if_some (find same to k) (λ _. to) (assign same to k v))

-- The same for the directives, where an entry of the second map may be nil. The keys are those that
-- are left of the first one.
unfoldable pub merge_directives : DirectiveMap → DirectiveMap → DirectiveMap → DirectiveMap
merge_directives from [] to = to
merge_directives from ((k, _) ∷ left) to =
    merge_directives from left
      (if_some (declared to k) (λ _. to) (assign ◌==◌ to k (declared from k)))

-- `Schema.AddIfMissing`, whose panic is for a misuse of its first argument.
unfoldable pub add_schema : Schema → Schema → Schema
add_schema from to = record to {
  entry_points = merge same_operation from.entry_points to.entry_points;
  declared_directives =
      merge_directives from.declared_directives from.declared_directives to.declared_directives;
  types = merge ◌==◌ from.types to.types;
}

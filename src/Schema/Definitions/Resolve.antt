-- ===== src/Schema/Definitions/Resolve.antt =====
-- schema/schema.go: `ResolveTypes`. The loops over maps go in the order of the lists; a failed run
-- keeps no schema.
pub mod Sound
pub mod Sorted
pub mod Kinds
pub mod Links
use mathlib.Core.Option
use graphql.Prelude.{String, List, [], ◌∷◌, ◌++◌, Option, none, some, ◌==◌, text_lt}
use graphql.Prelude.Result
use graphql.Prelude.Result.{Result, ok, raised, out_of_fuel}
use graphql.Lexer.Parser.{GoLibrary, no_location}
use graphql.Schema.Literals.Parse.{nil_literal}
use graphql.Schema.Types.Parse.{NamedType, SchemaType, UnknownType, resolve_type}
use graphql.Schema.Values.Parse.{
  Argument, ArgumentList, Directive, DirectiveList, InputValue, InputValueList, get_argument,
  get_input_value,
}
use graphql.Schema.Query.Parse.{OperationType}
use graphql.Schema.Definitions.{
  Field, FieldList, Object, Interface, Union, Enum, EnumValue, InputObject, TypeDef, scalar_def,
  object_def, interface_def, union_def, enum_def, input_def, kind_of, DirectiveDecl, DirectiveMap,
  Schema,
}
use graphql.Schema.Definitions.Maps.{find, assign}
use graphql.Schema.Definitions.Alter.{TypeMap, if_some}
use graphql.Schema.Definitions.Document.{same_operation}
use graphql.Schema.Definitions.Sort.{sort_type, sort_input_values}

-- The errors of `ResolveTypes`, and its panic at a nil entry for a directive.
pub data ResolveError : Type 0 where
  unknown : UnknownType → ResolveError
  directive_not_found : String → ResolveError
  invalid_argument : (arg directive : String) → ResolveError
  type_not_found interface_not_found not_an_interface : String → ResolveError
  object_not_found not_an_object : String → ResolveError
  nil_declaration : ResolveError

abbrev pub Resolving : Type 0 → Type 0
Resolving = Result ResolveError

-- A loop that replaces each item, or stops at the first error.
unfoldable pub map_each : {A B : Type 0} → (A → Resolving B) → List A → Resolving (List B)
map_each f [] = ok []
map_each f (a ∷ l) = Result.bind (f a) λ b. Result.bind (map_each f l) λ m. ok (b ∷ m)

-- A loop that changes a state, or stops at the first error.
unfoldable pub fold_each : {A S : Type 0} → (S → A → Resolving S) → S → List A → Resolving S
fold_each f s [] = ok s
fold_each f s (a ∷ l) = Result.bind (f s a) λ s'. fold_each f s' l

abbrev pub or_unknown : Result UnknownType SchemaType → Resolving SchemaType
or_unknown (ok t) = ok t
or_unknown (raised e) = raised (unknown e)
or_unknown out_of_fuel = out_of_fuel

-- `Schema.Resolve`.
unfoldable pub resolve : TypeMap → String → Option NamedType
resolve types name =
    if_some (find ◌==◌ types name) (λ t. some (record { kind = kind_of t; name = name })) none

-- The arguments of a directive, with the default of each argument of its declaration that is
-- missing; a missing default is nil.
unfoldable pub add_defaults : ArgumentList → InputValueList → ArgumentList
add_defaults args [] = args
add_defaults args (v ∷ vs) =
    add_defaults
      (if_some (get_argument args v.name) (λ _. args)
        (args
          ++ record {
            name = v.name;
            name_loc = no_location;
            value = if_some v.default (λ l. l) nil_literal;
          }
            ∷ []))
      vs

module _ (directives : DirectiveMap) where
  -- The second loop of `resolveDirectives`.
  unfoldable pub check_arguments : String → InputValueList → ArgumentList → Resolving (Unit {0})
  check_arguments name decls [] = ok tt
  check_arguments name decls (arg ∷ args) =
      if_some (get_input_value decls arg.name) (λ _. check_arguments name decls args)
        (raised (invalid_argument arg.name name))

  -- One round of `resolveDirectives`.
  unfoldable pub resolve_directive : Directive → Resolving Directive
  resolve_directive d =
      if_some (find ◌==◌ directives d.name)
        (λ entry.
          if_some entry
            (λ dd.
              Result.bind (check_arguments d.name dd.args d.args)
                λ _. ok (record d { args = add_defaults d.args dd.args }))
            (raised nil_declaration))
        (raised (directive_not_found d.name))

  -- `resolveDirectives`.
  unfoldable pub resolve_directives : DirectiveList → Resolving DirectiveList
  resolve_directives = map_each resolve_directive

  module _ (types : TypeMap) where
    -- The assignment `v.Type = t`.
    unfoldable pub resolve_input_value : InputValue → Resolving InputValue
    resolve_input_value v =
        Result.bind (or_unknown (resolve_type (resolve types) v.type))
          λ t. ok (record v { type = t })

    -- `resolveInputObject`.
    unfoldable pub resolve_input_object : InputValueList → Resolving InputValueList
    resolve_input_object = map_each resolve_input_value

    -- `resolveField`.
    unfoldable pub resolve_field : Field → Resolving Field
    resolve_field f = Result.bind (or_unknown (resolve_type (resolve types) f.type)) λ t.
        Result.bind (resolve_directives f.directives) λ ds.
          Result.bind (resolve_input_object f.args)
            λ args. ok (record f { type = t; directives = ds; args = args })

    -- `resolveNamedType`.
    unfoldable pub resolve_named_type : TypeDef → Resolving TypeDef
    resolve_named_type (object_def t) =
        Result.bind (map_each resolve_field t.fields)
          λ fs. ok (object_def (record t { fields = fs }))
    resolve_named_type (interface_def t) =
        Result.bind (map_each resolve_field t.fields)
          λ fs. ok (interface_def (record t { fields = fs }))
    resolve_named_type (input_def t) =
        Result.bind (resolve_input_object t.fields) λ fs. ok (input_def (record t { fields = fs }))
    resolve_named_type t = ok t

-- The objects, unions and enums of a schema, with their keys.
unfoldable pub objects_of : TypeMap → List (String × Object)
objects_of [] = []
objects_of ((k, object_def t) ∷ m) = (k, t) ∷ objects_of m
objects_of ((k, _) ∷ m) = objects_of m

unfoldable pub unions_of : TypeMap → List (String × Union)
unions_of [] = []
unions_of ((k, union_def t) ∷ m) = (k, t) ∷ unions_of m
unions_of ((k, _) ∷ m) = unions_of m

unfoldable pub enums_of : TypeMap → List (String × Enum)
enums_of [] = []
enums_of ((k, enum_def t) ∷ m) = (k, t) ∷ enums_of m
enums_of ((k, _) ∷ m) = enums_of m

-- What the code does with the type of an interface's name, for an object: the interface gets one
-- possible type more.
abbrev pub add_possible : TypeMap → String → String → Option TypeDef → Resolving TypeMap
add_possible types object name none = raised (interface_not_found name)
add_possible types object name (some (interface_def t)) = ok (
    assign ◌==◌ types name
      (interface_def (record t { possible_types = t.possible_types ++ object ∷ [] })))
add_possible types object name (some _) = raised (not_an_interface name)

unfoldable pub link_interface : String → TypeMap → String → Resolving TypeMap
link_interface object types name = add_possible types object name (find ◌==◌ types name)

-- The loop over the interfaces of an object.
unfoldable pub link_object : TypeMap → String × Object → Resolving TypeMap
link_object types (key, obj) =
    Result.bind (fold_each (link_interface obj.name) types obj.interface_names) λ types'.
      ok (assign ◌==◌ types' key (object_def (record obj { interfaces = obj.interface_names })))

-- An object of a union.
abbrev pub as_object : String → Option TypeDef → Resolving String
as_object name none = raised (object_not_found name)
as_object name (some (object_def t)) = ok t.name
as_object name (some _) = raised (not_an_object name)

module _ (go : GoLibrary) where
  unfoldable pub link_union : TypeMap → String × Union → Resolving TypeMap
  link_union types (key, union) =
      Result.bind (map_each (λ name. as_object name (find ◌==◌ types name)) union.type_names)
        λ names. ok (
          assign ◌==◌ types key
            (union_def (record union { possible_types = go.sort_slice String text_lt names })))

  unfoldable pub resolve_enum_value : DirectiveMap → EnumValue → Resolving EnumValue
  resolve_enum_value directives v =
      Result.bind (resolve_directives directives v.directives)
        λ ds. ok (record v { directives = ds })

  unfoldable pub resolve_enum : DirectiveMap → TypeMap → String × Enum → Resolving TypeMap
  resolve_enum directives types (key, enum) =
      Result.bind (map_each (resolve_enum_value directives) enum.values)
        λ values. ok (assign ◌==◌ types key (enum_def (record enum { values = values })))

  -- The round of the first loop for one type,
  unfoldable pub resolve_entry :
      DirectiveMap → TypeMap → String × TypeDef → Resolving (String × TypeDef)
  resolve_entry directives types (key, t) =
      Result.bind (resolve_named_type directives types t) λ t'. ok (key, sort_type go t')

  -- that of the loop over the declared directives,
  unfoldable pub resolve_declaration :
      DirectiveMap
      → TypeMap
      → String × Option DirectiveDecl
      → Resolving (String × Option DirectiveDecl)
  resolve_declaration directives types (key, entry) =
      if_some entry
        (λ d.
          Result.bind (resolve_input_object directives types (sort_input_values go d.args))
            λ args. ok (key, some (record d { args = args })))
        (raised nil_declaration)

  -- and that of the loop over the entry points.
  unfoldable pub resolve_entry_point :
      TypeMap
      → List (OperationType × NamedType)
      → OperationType × String
      → Resolving (List (OperationType × NamedType))
  resolve_entry_point types points (op, name) =
      if_some (resolve types name) (λ n. ok (assign same_operation points op n))
        (raised (type_not_found name))

  -- `ResolveTypes`, of a schema in which no type that is resolved already has been declared anew since:
  -- in Go such a pointer stays with the type as it was.
  unfoldable pub resolve_types : Schema → Resolving Schema
  resolve_types s =
      Result.bind (map_each (resolve_entry s.declared_directives s.types) s.types) λ types.
        Result.bind
          (map_each (resolve_declaration s.declared_directives types) s.declared_directives)
          λ ds.
            Result.bind (fold_each (resolve_entry_point types) s.entry_points s.entry_point_names)
              λ points.
                Result.bind
                  (fold_each link_object types (
                    go.sort_slice (String × Object) (λ a b. text_lt a.1.name b.1.name)
                      (objects_of types)))
                  λ types₁. Result.bind (fold_each link_union types₁ (unions_of types)) λ types₂.
                    Result.bind (fold_each (resolve_enum ds) types₂ (enums_of types)) λ types₃.
                      ok (record s {
                        types = types₃;
                        declared_directives = ds;
                        entry_points = points;
                      })

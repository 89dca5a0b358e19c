-- ===== src/Schema/Types/Parse.antt =====
-- schema/types.go: `ParseType`, `OfType`, `DeepestType` and `ResolveType`.
use graphql.Prelude.{ℕ, zero, suc, String, Option, none, some, if◌then◌else◌}
use graphql.Prelude.Result
use graphql.Prelude.Result.{Result, ok, raised, out_of_fuel}
use graphql.Qerrors.{Location}
use graphql.Lexer.Token.{char}
use graphql.Lexer.Parser.{Parser, pure, ◌>>=◌, ◌>>◌, run, at, consume_token, consume_ident_with_loc}

-- The kinds of `NamedType`.
pub data Kind : Type 0 where
  scalar object interface union enum input_object : Kind

-- A pointer to a named type: the type of this kind that the schema holds under this name. A pointer
-- to a type that has been replaced in the schema is none of these.
pub record NamedType : Type 0 where
  pub kind : Kind
  pub name : String

-- `Type`: `List`, `NonNull`, `TypeName`, and the named types of a schema.
pub data SchemaType : Type 0 where
  list : SchemaType → SchemaType
  non_null : SchemaType → SchemaType
  type_name : String → Location → SchemaType
  named : NamedType → SchemaType

-- `parseTypeName`.
unfoldable pub parse_type_name : Parser SchemaType
parse_type_name ts = run ts do (name, loc) ← consume_ident_with_loc; pure (type_name name loc)

-- `parseNullType`, given `ParseType`.
unfoldable pub parse_null_type : Parser SchemaType → Parser SchemaType
parse_null_type parse_of_type ts =
    if at (char b'[') ts
    then (run ts do
      consume_token (char b'[')
      of_type ← parse_of_type
      consume_token (char b']')
      pure (list of_type))
    else parse_type_name ts

-- The end of `ParseType`.
unfoldable pub parse_bang : SchemaType → Parser SchemaType
parse_bang t ts =
    if at (char b'!') ts
    then (run ts do consume_token (char b'!'); pure (non_null t))
    else ok (t, ts)

-- `ParseType`.
unfoldable pub parse_type : ℕ → Parser SchemaType
parse_type zero ts = out_of_fuel
parse_type (suc f) ts = run ts do t ← parse_null_type (parse_type f); parse_bang t

-- `DeepestType`.
unfoldable pub deepest_type : SchemaType → SchemaType
deepest_type (list t) = deepest_type t
deepest_type (non_null t) = deepest_type t
deepest_type t = t

-- `OfType`.
unfoldable pub of_type : SchemaType → Option SchemaType
of_type (list t) = some t
of_type (non_null t) = some t
of_type _ = none

-- The error of `ResolveType`, under the rule "KnownTypeNames".
pub data UnknownType : Type 0 where
  unknown_type : String → Location → UnknownType

-- `ResolveType`, with `Schema.Resolve` as the resolver.
unfoldable pub resolve_type :
    (String → Option NamedType) → SchemaType → Result UnknownType SchemaType
resolve_type resolver (list t) = Result.bind (resolve_type resolver t) λ of_type. ok (list of_type)
resolve_type resolver (non_null t) =
    Result.bind (resolve_type resolver t) λ of_type. ok (non_null of_type)
resolve_type resolver (type_name name loc) = elim (resolver name) [
  | none ↦ raised (unknown_type name loc)
  | some n ↦ ok (named n)
]
resolve_type resolver (named n) = ok (named n)

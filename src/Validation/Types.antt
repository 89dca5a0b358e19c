-- ===== src/Validation/Types.antt =====
-- internal/validation/validation.go: the tests on types.
pub mod Shape
pub mod Usable
use graphql.Prelude.{String, Bool, true, false, ◌&&◌, ◌||◌, ◌==◌, if◌then◌else◌, Option, none, some}
use graphql.Schema.Types.Parse.{
  Kind, scalar, object, interface, union, enum, input_object, NamedType, SchemaType, list, non_null,
  type_name, named,
}

-- Go's `==` on named types: their keys in the schema.
abbrev pub same_kind : Kind → Kind → Bool
same_kind scalar scalar = true
same_kind object object = true
same_kind interface interface = true
same_kind union union = true
same_kind enum enum = true
same_kind input_object input_object = true
same_kind _ _ = false

abbrev pub same_named : NamedType → NamedType → Bool
same_named a b = same_kind a.kind b.kind && a.name == b.name

-- The kinds that `canBeFragment`, `canBeInput`, `hasSubfields` and `isLeaf` name.
abbrev pub is_composite_kind : Kind → Bool
is_composite_kind object = true
is_composite_kind interface = true
is_composite_kind union = true
is_composite_kind _ = false

abbrev pub is_input_kind : Kind → Bool
is_input_kind input_object = true
is_input_kind scalar = true
is_input_kind enum = true
is_input_kind _ = false

abbrev pub is_leaf_kind : Kind → Bool
is_leaf_kind scalar = true
is_leaf_kind enum = true
is_leaf_kind _ = false

-- `canBeFragment`.
unfoldable pub can_be_fragment : SchemaType → Bool
can_be_fragment (named n) = is_composite_kind n.kind
can_be_fragment _ = false

-- `canBeInput`.
unfoldable pub can_be_input : SchemaType → Bool
can_be_input (named n) = is_input_kind n.kind
can_be_input (list t) = can_be_input t
can_be_input (non_null t) = can_be_input t
can_be_input (type_name _ _) = false

-- `hasSubfields`.
unfoldable pub has_subfields : SchemaType → Bool
has_subfields (named n) = is_composite_kind n.kind
has_subfields (list t) = has_subfields t
has_subfields (non_null t) = has_subfields t
has_subfields (type_name _ _) = false

-- `isLeaf`.
unfoldable pub is_leaf : SchemaType → Bool
is_leaf (named n) = is_leaf_kind n.kind
is_leaf _ = false

-- `unwrapType`; its panic on a type that is not resolved is `none`.
unfoldable pub unwrap_type : SchemaType → Option NamedType
unwrap_type (named n) = some n
unwrap_type (list t) = unwrap_type t
unwrap_type (non_null t) = unwrap_type t
unwrap_type (type_name _ _) = none

-- Go's `==` on types that are neither lists nor non-null. An unresolved name is equal only to
-- itself, as a pointer, and the types that are compared here are resolved.
abbrev pub same_type : SchemaType → SchemaType → Bool
same_type (named a) (named b) = same_named a b
same_type _ _ = false

-- The end of `typesCompatible`, where neither type is a list or non-null.
unfoldable pub leaves_compatible : SchemaType → SchemaType → Bool
leaves_compatible a b = if is_leaf a || is_leaf b then same_type a b else true

-- `typesCompatible`.
unfoldable pub types_compatible : SchemaType → SchemaType → Bool
types_compatible (list a) (list b) = types_compatible a b
types_compatible (list a) _ = false
types_compatible (non_null a) (non_null b) = types_compatible a b
types_compatible (non_null a) _ = false
types_compatible _ (list b) = false
types_compatible _ (non_null b) = false
types_compatible a b = leaves_compatible a b

-- `typeCanBeUsedAs` behind its first two steps, which strip "!" from both types.
unfoldable pub nullable_can_be_used_as : SchemaType → SchemaType → Bool
nullable_can_be_used_as (named a) (named b) = same_named a b
nullable_can_be_used_as (list (non_null t)) (list (non_null u)) = nullable_can_be_used_as t u
nullable_can_be_used_as (list (non_null t)) (list u) = nullable_can_be_used_as t u
nullable_can_be_used_as (list t) (list (non_null u)) = false
nullable_can_be_used_as (list t) (list u) = nullable_can_be_used_as t u
nullable_can_be_used_as _ _ = false

-- `typeCanBeUsedAs`. Go's `t == as` is also true of one list type that stands on both sides, for
-- which the elements decide the same. The call on the elements of two lists is written out above;
-- `nullable_can_be_used_as-list` says that it is this function.
unfoldable pub type_can_be_used_as : SchemaType → SchemaType → Bool
type_can_be_used_as (non_null t) (non_null u) = nullable_can_be_used_as t u
type_can_be_used_as (non_null t) u = nullable_can_be_used_as t u
type_can_be_used_as t (non_null u) = false
type_can_be_used_as t u = nullable_can_be_used_as t u

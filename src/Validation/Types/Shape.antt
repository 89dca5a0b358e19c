-- ===== src/Validation/Types/Shape.antt =====
-- `typesCompatible` compares the shapes of two types: what a response at such a field looks like.
use graphql.Prelude.{true, ◌≡◌, ap, ◌↔◌, if◌then◌else◌, ==_iff, arith}
use graphql.Schema.Types.Parse.{Kind, NamedType, SchemaType, list, non_null, type_name, named}
use graphql.Validation.Types.{
  same_kind, same_named, is_leaf_kind, leaves_compatible, types_compatible, is_leaf,
}

-- Composite types all have one shape, since their fields are compared one by one.
pub data Shape : Type 0 where
  list_of : Shape → Shape
  required : Shape → Shape
  leaf : NamedType → Shape
  composite : Shape

unfoldable pub shape : SchemaType → Shape
shape (list t) = list_of (shape t)
shape (non_null t) = required (shape t)
shape (named n) = if is_leaf_kind n.kind then leaf n else composite
shape (type_name _ _) = composite

same_kind_iff : (a b : Kind) → (same_kind a b ≡ true) ↔ (a ≡ b)
same_kind_iff a b = (ground arith, ground arith)

pub same_named_iff : (a b : NamedType) → (same_named a b ≡ true) ↔ (a ≡ b)
same_named_iff a b = (
  ground (arith, same_kind_iff a.kind b.kind, ==_iff a.name b.name),
  λ e. rw e (ground (arith, same_kind_iff b.kind b.kind, ==_iff b.name b.name)),
)

leaves_iff :
    (a b : NamedType)
    → (leaves_compatible (named a) (named b) ≡ true) ↔ (shape (named a) ≡ shape (named b))
unfolding leaves_compatible is_leaf shape
leaves_iff a b = (ground (arith, same_named_iff a b), ground (arith, same_named_iff a b))

-- Two types are compatible for `typesCompatible` exactly when they have the same shape.
pub types_compatible_iff : (a b : SchemaType) → (types_compatible a b ≡ true) ↔ (shape a ≡ shape b)
unfolding types_compatible shape
types_compatible_iff (list a) (list b) =
    (λ h. ap list_of ((types_compatible_iff a b).0 h), λ e. (types_compatible_iff a b).1 (cc))
types_compatible_iff (non_null a) (non_null b) =
    (λ h. ap required ((types_compatible_iff a b).0 h), λ e. (types_compatible_iff a b).1 (cc))
types_compatible_iff (named a) (named b) = leaves_iff a b
types_compatible_iff (list a) _ = (ground arith, ground arith)
types_compatible_iff (non_null a) _ = (ground arith, ground arith)
types_compatible_iff (named a) (type_name x l) =
    unfold leaves_compatible is_leaf in (ground arith, ground arith)
types_compatible_iff (type_name x l) (named b) =
    unfold leaves_compatible is_leaf in (ground arith, ground arith)
types_compatible_iff (type_name x l) (type_name y k) =
    unfold leaves_compatible is_leaf in (ground arith, ground arith)
types_compatible_iff _ (list b) = (ground arith, ground arith)
types_compatible_iff _ (non_null b) = (ground arith, ground arith)

-- ===== src/Schema/Types/Resolve.antt =====
-- `ResolveType` by what stands inside the brackets of a type.
use graphql.Prelude.{String, ◌≡◌, refl, Option, none, some, Option-cases, inl, inr}
use graphql.Prelude.Result.{Result, ok, raised, bind}
use graphql.Qerrors.{Location}
use graphql.Schema.Types.Parse.{
  NamedType, SchemaType, list, non_null, type_name, named, deepest_type, UnknownType, unknown_type,
  resolve_type,
}

-- The type with another one at its leaf.
unfoldable pub rewrap : SchemaType → NamedType → SchemaType
rewrap (list t) n = list (rewrap t n)
rewrap (non_null t) n = non_null (rewrap t n)
rewrap _ n = named n

-- What the leaf of a type decides: a named type stays, a name that the resolver knows is replaced,
-- and any other name is reported at its position.
pub data Resolution (resolver : String → Option NamedType) (t : SchemaType)
    : Result UnknownType SchemaType → Type 0 where
  settled : (n : NamedType) → deepest_type t ≡ named n → Resolution resolver t (ok t)
  replaced :
      (name : String) (loc : Location) (n : NamedType)
      → deepest_type t ≡ type_name name loc
      → resolver name ≡ some n
      → Resolution resolver t (ok (rewrap t n))
  missing :
      (name : String) (loc : Location)
      → deepest_type t ≡ type_name name loc
      → resolver name ≡ none
      → Resolution resolver t (raised (unknown_type name loc))

module _ (resolver : String → Option NamedType) where
  Resolution-list :
      {t : SchemaType} {r : Result UnknownType SchemaType}
      → Resolution resolver t r
      → Resolution resolver (list t) (bind r λ of_type. ok (list of_type))
  unfolding deepest_type rewrap
  Resolution-list (settled n e) = settled n e
  Resolution-list (replaced name loc n e k) = replaced name loc n e k
  Resolution-list (missing name loc e k) = missing name loc e k

  Resolution-non_null :
      {t : SchemaType} {r : Result UnknownType SchemaType}
      → Resolution resolver t r
      → Resolution resolver (non_null t) (bind r λ of_type. ok (non_null of_type))
  unfolding deepest_type rewrap
  Resolution-non_null (settled n e) = settled n e
  Resolution-non_null (replaced name loc n e k) = replaced name loc n e k
  Resolution-non_null (missing name loc e k) = missing name loc e k

  resolve_type-none :
      (name : String) (loc : Location)
      → resolver name ≡ none
      → resolve_type resolver (type_name name loc) ≡ raised (unknown_type name loc)
  unfolding resolve_type
  resolve_type-none name loc e = rw (resolve_type, e) refl

  resolve_type-some :
      (name : String) (loc : Location) (n : NamedType)
      → resolver name ≡ some n
      → resolve_type resolver (type_name name loc) ≡ ok (named n)
  unfolding resolve_type
  resolve_type-some name loc n e = rw (resolve_type, e) refl

  -- `ResolveType` returns the type as it is if its leaf is a named type; if the leaf is a name, it
  -- returns the type with the named type of the resolver at the leaf, brackets and marks unchanged,
  -- or, if the resolver does not know the name, the error with the name and its position.
  pub resolve_type-Resolution : (t : SchemaType) → Resolution resolver t (resolve_type resolver t)
  unfolding resolve_type deepest_type rewrap
  resolve_type-Resolution (list t) = Resolution-list (resolve_type-Resolution t)
  resolve_type-Resolution (non_null t) = Resolution-non_null (resolve_type-Resolution t)
  resolve_type-Resolution (named n) = settled n refl
  resolve_type-Resolution (type_name name loc) = elim (Option-cases (resolver name)) [
    | inl e ↦ rw (resolve_type-none name loc e) (missing name loc refl e)
    | inr (n, e) ↦ rw (resolve_type-some name loc n e) (replaced name loc n refl e)
  ]

-- ===== src/Validation/Types/Usable.antt =====
-- `typeCanBeUsedAs` decides when a value of one type may stand where another is expected.
use graphql.Prelude.{true, ◌≡◌, refl, sym, ◌∙◌, ◌↔◌, arith}
use graphql.Schema.Types.Parse.{NamedType, SchemaType, list, non_null, type_name, named}
use graphql.Validation.Types.{nullable_can_be_used_as, type_can_be_used_as}
use graphql.Validation.Types.Shape.{same_named_iff}

-- The type is not itself marked as non-null.
abbrev pub IsNullable : SchemaType → Type 0
IsNullable (non_null t) = ⊥
IsNullable _ = Unit {0}

-- A named type serves as itself, a list as a list if the elements do, and a non-null type both as
-- non-null and as nullable.
pub data Serves : SchemaType → SchemaType → Type 0 where
  itself : {a b : NamedType} → a ≡ b → Serves (named a) (named b)
  elements : {t u : SchemaType} → Serves t u → Serves (list t) (list u)
  still_required :
      {t u : SchemaType}
      → Serves t u
      → IsNullable t
      → IsNullable u
      → Serves (non_null t) (non_null u)
  not_required :
      {t u : SchemaType} → Serves t u → IsNullable t → IsNullable u → Serves (non_null t) u

-- The recursive call of the source.
nullable_can_be_used_as-list :
    (t u : SchemaType) → nullable_can_be_used_as (list t) (list u) ≡ type_can_be_used_as t u
unfolding nullable_can_be_used_as type_can_be_used_as
nullable_can_be_used_as-list (non_null t) (non_null u) = refl
nullable_can_be_used_as-list (non_null t) _ = refl
nullable_can_be_used_as-list t (non_null u) = refl
nullable_can_be_used_as-list t u = refl

nullable-IsNullable :
    (t u : SchemaType) → nullable_can_be_used_as t u ≡ true → IsNullable t × IsNullable u
unfolding nullable_can_be_used_as
nullable-IsNullable (non_null t) u h = cc
nullable-IsNullable (list t) (non_null u) h = ground arith
nullable-IsNullable (list t) (list u) h = (tt, tt)
nullable-IsNullable (list t) (named u) h = (tt, tt)
nullable-IsNullable (list t) (type_name x l) h = (tt, tt)
nullable-IsNullable (named t) (non_null u) h = cc
nullable-IsNullable (named t) (list u) h = (tt, tt)
nullable-IsNullable (named t) (named u) h = (tt, tt)
nullable-IsNullable (named t) (type_name x l) h = (tt, tt)
nullable-IsNullable (type_name y k) u h = cc

-- Stripped types that the code accepts serve.
nullable_sound : (t u : SchemaType) → nullable_can_be_used_as t u ≡ true → Serves t u
unfolding nullable_can_be_used_as
nullable_sound (named a) (named b) h = itself ((same_named_iff a b).0 h)
nullable_sound (list (non_null t)) (list (non_null u)) h =
    let (nt, nu) = nullable-IsNullable t u h in
    elements (still_required (nullable_sound t u h) nt nu)
nullable_sound (list (non_null t)) (list u) h =
    let (nt, nu) = nullable-IsNullable t u h in elements (not_required (nullable_sound t u h) nt nu)
nullable_sound (list t) (list (non_null u)) h = cc
nullable_sound (list t) (list u) h = elements (nullable_sound t u h)
nullable_sound _ _ h = cc

used_sound : (t u : SchemaType) → type_can_be_used_as t u ≡ true → Serves t u
unfolding type_can_be_used_as
used_sound (non_null t) (non_null u) h =
    let (nt, nu) = nullable-IsNullable t u h in still_required (nullable_sound t u h) nt nu
used_sound (non_null t) u h =
    let (nt, nu) = nullable-IsNullable t u h in not_required (nullable_sound t u h) nt nu
used_sound t (non_null u) h = cc
used_sound t u h = nullable_sound t u h

used-nullable :
    (t u : SchemaType)
    → IsNullable t
    → IsNullable u
    → type_can_be_used_as t u ≡ nullable_can_be_used_as t u
unfolding type_can_be_used_as
used-nullable (non_null t) u nt nu = absurd nt
used-nullable t (non_null u) nt nu = absurd nu
used-nullable t u nt nu = refl

strip_used :
    (t u : SchemaType)
    → IsNullable u
    → type_can_be_used_as (non_null t) u ≡ nullable_can_be_used_as t u
unfolding type_can_be_used_as
strip_used t (non_null u) nu = absurd nu
strip_used t u nu = refl

used_complete : {t u : SchemaType} → Serves t u → type_can_be_used_as t u ≡ true
unfolding type_can_be_used_as
used_complete (itself {a} {b} e) = unfold nullable_can_be_used_as in (same_named_iff a b).1 e
used_complete (elements {t} {u} s) = nullable_can_be_used_as-list t u ∙ used_complete s
used_complete (still_required {t} {u} s nt nu) = sym (used-nullable t u nt nu) ∙ used_complete s
used_complete (not_required {t} {u} s nt nu) =
    strip_used t u nu ∙ (sym (used-nullable t u nt nu) ∙ used_complete s)

-- `typeCanBeUsedAs` accepts a pair of types exactly when the first serves as the second.
pub type_can_be_used_as_iff : (t u : SchemaType) → (type_can_be_used_as t u ≡ true) ↔ Serves t u
type_can_be_used_as_iff t u = (used_sound t u, used_complete)

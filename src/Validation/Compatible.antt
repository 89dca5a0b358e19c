-- ===== src/Validation/Compatible.antt =====
-- internal/validation/validation.go: `possibleTypes` and `compatible`. A pointer to an object is its
-- name, and a nil type is `none`.
use graphql.Prelude.{
  ◌≡◌, refl, ◌↔◌, String, Bool, true, false, List, [], ◌∷◌, Option, none, some, if◌then◌else◌, ◌==◌,
  ==_iff, Bool-cases, inl, inr, subst,
}
use graphql.Schema.Types.Parse.{NamedType, SchemaType, list, non_null, type_name, named}
use graphql.Schema.Definitions.{
  Object, Interface, Union, TypeDef, scalar_def, object_def, interface_def, union_def, enum_def,
  input_def,
}
use graphql.Schema.Definitions.Maps.{find}
use graphql.Schema.Definitions.Alter.{TypeMap}
use graphql.Validation.Values.{look_up_type}

-- The possible types of what a type is in the schema.
abbrev pub possible_of : Option TypeDef → List String
possible_of (some (object_def t)) = t.name ∷ []
possible_of (some (interface_def t)) = t.possible_types
possible_of (some (union_def t)) = t.possible_types
possible_of _ = []

-- `possibleTypes`.
unfoldable pub possible_types_of : TypeMap → Option SchemaType → List String
possible_types_of types none = []
possible_types_of types (some t) = possible_of (look_up_type types t)

-- The inner loop of `compatible`, and the outer one.
unfoldable pub is_among : String → List String → Bool
is_among pta [] = false
is_among pta (ptb ∷ l) = if pta == ptb then true else is_among pta l

unfoldable pub share_one : List String → List String → Bool
share_one [] l = false
share_one (pta ∷ k) l = if is_among pta l then true else share_one k l

-- `compatible`.
unfoldable pub compatible : TypeMap → Option SchemaType → Option SchemaType → Bool
compatible types a b = share_one (possible_types_of types a) (possible_types_of types b)

-- `Stands n l`: the name is in the list.
pub data Stands (n : String) : List String → Type 0 where
  first : {l : List String} → Stands n (n ∷ l)
  next : {m : String} {l : List String} → Stands n l → Stands n (m ∷ l)

is_among-Stands : (n : String) (l : List String) → is_among n l ≡ true → Stands n l
unfolding is_among
is_among-Stands n [] e = cc
is_among-Stands n (m ∷ l) e = elim (Bool-cases (n == m)) [
  | inl same ↦ subst (λ k. Stands n (k ∷ l)) ((==_iff n m).0 same) first
  | inr other ↦ next (is_among-Stands n l (cc))
]

Stands-is_among : (n : String) (l : List String) → Stands n l → is_among n l ≡ true
unfolding is_among
Stands-is_among n _ first = rw ((==_iff n n).1 refl) refl
Stands-is_among n _ (next {m} {l} s) = elim (Bool-cases (n == m)) [
  | inl e ↦ rw e refl
  | inr e ↦ rw e (Stands-is_among n l s)
]

share_one-Stands :
    (k l : List String) → share_one k l ≡ true → (n : String) × Stands n k × Stands n l
unfolding share_one
share_one-Stands [] l e = cc
share_one-Stands (n ∷ k) l e = elim (Bool-cases (is_among n l)) [
  | inl among ↦ (n, first, is_among-Stands n l among)
  | inr rest ↦ let (m, in_k, in_l) = share_one-Stands k l (cc) in (m, next in_k, in_l)
]

Stands-share_one : (n : String) (k l : List String) → Stands n k → Stands n l → share_one k l ≡ true
unfolding share_one
Stands-share_one n _ l first h = rw (Stands-is_among n l h) refl
Stands-share_one n _ l (next {m} {l = k} s) h = elim (Bool-cases (is_among m l)) [
  | inl e ↦ rw e refl
  | inr e ↦ rw e (Stands-share_one n k l s h)
]

module _ (types : TypeMap) where
  -- `MayBe a n`: an object of this name can stand where the type is asked for.
  pub data MayBe : Option SchemaType → String → Type 0 where
    the_object :
        {t : NamedType} {o : Object}
        → find ◌==◌ types t.name ≡ some (object_def o)
        → MayBe (some (named t)) o.name
    implements :
        {t : NamedType} {i : Interface} {n : String}
        → find ◌==◌ types t.name ≡ some (interface_def i)
        → Stands n i.possible_types
        → MayBe (some (named t)) n
    in_union :
        {t : NamedType} {u : Union} {n : String}
        → find ◌==◌ types t.name ≡ some (union_def u)
        → Stands n u.possible_types
        → MayBe (some (named t)) n

  possible_of-MayBe :
      (t : NamedType) (o : Option TypeDef) (n : String)
      → find ◌==◌ types t.name ≡ o
      → Stands n (possible_of o)
      → MayBe (some (named t)) n
  possible_of-MayBe t none n e s = elim s [ ]
  possible_of-MayBe t (some (scalar_def _)) n e s = elim s [ ]
  possible_of-MayBe t (some (enum_def _)) n e s = elim s [ ]
  possible_of-MayBe t (some (input_def _)) n e s = elim s [ ]
  possible_of-MayBe t (some (object_def o)) _ e first = the_object e
  possible_of-MayBe t (some (object_def o)) n e (next s) = elim s [ ]
  possible_of-MayBe t (some (interface_def i)) n e s = implements e s
  possible_of-MayBe t (some (union_def u)) n e s = in_union e s

  possible-MayBe :
      (a : Option SchemaType) (n : String) → Stands n (possible_types_of types a) → MayBe a n
  unfolding possible_types_of look_up_type
  possible-MayBe none n s = elim s [ ]
  possible-MayBe (some (list _)) n s = elim s [ ]
  possible-MayBe (some (non_null _)) n s = elim s [ ]
  possible-MayBe (some (type_name _ _)) n s = elim s [ ]
  possible-MayBe (some (named t)) n s = possible_of-MayBe t (find ◌==◌ types t.name) n refl s

  MayBe-possible :
      (a : Option SchemaType) (n : String) → MayBe a n → Stands n (possible_types_of types a)
  unfolding possible_types_of look_up_type
  MayBe-possible _ _ (the_object e) = rw e first
  MayBe-possible _ _ (implements e s) = rw e s
  MayBe-possible _ _ (in_union e s) = rw e s

  -- Two types are compatible for `compatible` exactly when one object of the schema can stand for
  -- both: an object for itself, and those that an interface or a union lists for it.
  pub compatible_iff :
      (a b : Option SchemaType)
      → (compatible types a b ≡ true) ↔ ((n : String) × MayBe a n × MayBe b n)
  unfolding compatible
  compatible_iff a b = (
    λ e.
        let (n, in_a, in_b) = share_one-Stands _ _ e in
        (n, possible-MayBe a n in_a, possible-MayBe b n in_b),
    λ (n, in_a, in_b). Stands-share_one n _ _ (MayBe-possible a n in_a) (MayBe-possible b n in_b),
  )

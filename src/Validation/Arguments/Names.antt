-- ===== src/Validation/Arguments/Names.antt =====
-- About loops of internal/validation/validation.go that call `validateName` for each name.
use graphql.Prelude.{
  ◌≡◌, refl, String, false, List, [], ◌∷◌, none, some, ◌==◌, ==_iff, Bool-cases, Option-cases, inl,
  inr, Each, subst,
}
use graphql.Qerrors.{Location}
use graphql.Schema.Definitions.Maps.{find, assign}
use graphql.Schema.Definitions.Alter.{has_string}
use graphql.Validation.Errors.{Problem}
use graphql.Validation.Context.{Context, NameSet, validate_name}
use graphql.Validation.Arguments.Clean.{Clean, Clean-same, Clean-add_error}

abbrev pub NoRepeats : List String → Type 0
NoRepeats [] = Unit
NoRepeats (n ∷ ns) = (has_string ns n ≡ false) × NoRepeats ns

-- No name is in the set.
abbrev pub AreNew : NameSet → List String → Type 0
AreNew names = Each (λ n. find ◌==◌ names n ≡ none)

find-assign_same :
    (m : NameSet) (k : String) (loc : Location) → find ◌==◌ (assign ◌==◌ m k loc) k ≡ some loc
unfolding find assign
find-assign_same [] k loc = rw ((==_iff k k).1 refl) refl
find-assign_same ((j, l) ∷ m) k loc = elim (Bool-cases (j == k)) [
  | inl e ↦ rw (e, e) refl
  | inr e ↦ rw (e, e) (find-assign_same m k loc)
]

find-assign_absent :
    (m : NameSet) (k : String) (loc : Location) (x : String)
    → find ◌==◌ (assign ◌==◌ m k loc) x ≡ none
    → find ◌==◌ m x ≡ none
unfolding find assign
find-assign_absent [] k loc x e = refl
find-assign_absent ((j, l) ∷ m) k loc x e = elim (Bool-cases (j == x)) [
  | inl jx ↦ elim (Bool-cases (j == k)) [ inl jk ↦ cc | inr jk ↦ cc ]
  | inr jx ↦ elim (Bool-cases (j == k)) [
    | inl jk ↦ rw jx (cc)
    | inr jk ↦ rw jx (find-assign_absent m k loc x (cc))
  ]
]

find-assign_other :
    (m : NameSet) (k : String) (loc : Location) (x : String)
    → find ◌==◌ (assign ◌==◌ m k loc) x ≡ none
    → (x == k) ≡ false
find-assign_other m k loc x e = elim (Bool-cases (x == k)) [
  | inr ne ↦ ne
  | inl same ↦ let found = find-assign_same m k loc in let xk = (==_iff x k).0 same in cc
]

Each-assign :
    (m : NameSet) (k : String) (loc : Location) (ns : List String)
    → AreNew (assign ◌==◌ m k loc) ns
    → AreNew m ns × (has_string ns k ≡ false)
unfolding has_string
Each-assign m k loc [] h = (tt, refl)
Each-assign m k loc (x ∷ ns) h =
    let (news, rest) = Each-assign m k loc ns h.1 in
    ((find-assign_absent m k loc x h.0, news), rw (find-assign_other m k loc x h.0) rest)

-- One call of `validateName`.
pub validate_name-Clean :
    (names : NameSet) (name : String) (loc : Location) (problem : Problem) (c : Context)
    → Clean c
        ((find ◌==◌ names name ≡ none)
          × ((validate_name names name loc problem c).0 ≡ assign ◌==◌ names name loc))
        (validate_name names name loc problem c).1
unfolding validate_name
validate_name-Clean names name loc problem c = elim (Option-cases (find ◌==◌ names name)) [
  | inl e ↦ rw e (Clean-same (refl, refl))
  | inr (first, e) ↦ rw e (Clean-add_error _ c)
]

-- The names of the rest are new behind the call: then none of them is this one.
pub names-step :
    (names next : NameSet) (name : String) (loc : Location) (ns : List String)
    → (find ◌==◌ names name ≡ none) × (next ≡ assign ◌==◌ names name loc)
    → AreNew next ns × NoRepeats ns
    → AreNew names (name ∷ ns) × NoRepeats (name ∷ ns)
names-step names next name loc ns (absent, e) (news, distinct) =
    let (olds, other) = Each-assign names name loc ns (subst (λ m. AreNew m ns) e news) in
    ((absent, olds), (other, distinct))

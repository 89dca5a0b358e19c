-- ===== src/Schema/Definitions/AddMissing/Merged.antt =====
-- About `Schema.AddIfMissing` of schema/type_add_if_missing.go.
use graphql.Prelude.{
  ◌≡◌, refl, sym, ap, arith, false, ◌∙◌, String, List, [], ◌∷◌, Option, none, some, ◌==◌, ==_iff,
  Bool-cases, Option-cases, inl, inr, if◌then◌else◌,
}
use graphql.Schema.Definitions.{DirectiveDecl, DirectiveMap, Schema}
use graphql.Schema.Definitions.Maps.{find, assign}
use graphql.Schema.Definitions.Alter.{if_some}
use graphql.Schema.Definitions.AddMissing.{declared, merge, merge_directives, add_schema}

-- The first value, or else the second.
unfoldable pub or_else_some : {V : Type 0} → Option V → Option V → Option V
or_else_some (some v) o = some v
or_else_some none o = o

module _ {V : Type 0} where
  find-assign_new :
      (m : List (String × V)) (j : String) (v : V) (k : String)
      → find ◌==◌ m j ≡ none
      → find ◌==◌ (assign ◌==◌ m j v) k
        ≡ or_else_some (find ◌==◌ m k) (if j == k then some v else none)
  unfolding find assign or_else_some
  find-assign_new [] j v k e = refl
  find-assign_new ((i, w) ∷ m) j v k e = elim (Bool-cases (i == j)) [
    | inl ij ↦ cc
    | inr ij ↦ rw ij (elim (Bool-cases (i == k)) [
      | inl ik ↦ rw ik refl
      | inr ik ↦ rw ik (find-assign_new m j v k (cc))
    ])
  ]

  or_else_some_assoc :
      (a b c : Option V) → or_else_some (or_else_some a b) c ≡ or_else_some a (or_else_some b c)
  unfolding or_else_some
  or_else_some_assoc none b c = refl
  or_else_some_assoc (some a) b c = refl

  find-cons :
      (l : List (String × V)) (j : String) (v : V) (k : String)
      → find ◌==◌ ((j, v) ∷ l) k ≡ or_else_some (if j == k then some v else none) (find ◌==◌ l k)
  unfolding find or_else_some
  find-cons l j v k = elim (Bool-cases (j == k)) [ inl e ↦ rw e refl | inr e ↦ rw e refl ]

  -- A key that the second map has makes the entry of the first one idle.
  idle :
      (m l : List (String × V)) (j : String) (v w : V) (k : String)
      → find ◌==◌ m j ≡ some w
      → or_else_some (find ◌==◌ m k) (find ◌==◌ l k)
        ≡ or_else_some (find ◌==◌ m k) (find ◌==◌ ((j, v) ∷ l) k)
  unfolding find or_else_some
  idle m l j v w k e = elim (Bool-cases (j == k)) [
    | inl same ↦
        let jk : j ≡ k = (==_iff j k).0 same in
        let found : find ◌==◌ m k ≡ some w = cc in rw found refl
    | inr other ↦ rw other refl
  ]

  or_none : (o : Option V) → o ≡ or_else_some o none
  unfolding or_else_some
  or_none none = refl
  or_none (some v) = refl

  find-merge :
      (l m : List (String × V)) (k : String)
      → find ◌==◌ (merge ◌==◌ l m) k ≡ or_else_some (find ◌==◌ m k) (find ◌==◌ l k)
  unfolding merge find
  find-merge [] m k = or_none (find ◌==◌ m k)
  find-merge ((j, v) ∷ l) m k = elim (Option-cases (find ◌==◌ m j)) [
    | inr (w, e) ↦ rw e (find-merge l m k ∙ idle m l j v w k e)
    | inl e ↦ rw e (
        find-merge l (assign ◌==◌ m j v) k
        ∙ rw (find-assign_new m j v k e, find-cons l j v k) (or_else_some_assoc _ _ _))
  ]

-- The same for directives, whose entries may be nil.
or_itself : {V : Type 0} (o : Option V) → or_else_some o o ≡ o
unfolding or_else_some
or_itself none = refl
or_itself (some v) = refl

declared-assign :
    (m : DirectiveMap) (j : String) (v : Option DirectiveDecl) (k : String)
    → declared (assign ◌==◌ m j v) k ≡ (if j == k then v else declared m k)
unfolding declared assign find
declared-assign [] j v k = elim (Bool-cases (j == k)) [
  | inl e ↦ ground arith
  | inr e ↦ ground arith
]
declared-assign ((i, w) ∷ m) j v k =
    let rest = declared-assign m j v k in
    elim (Bool-cases (i == j)) [
      | inl ij ↦
          let same : (i == k) ≡ (j == k) = ap (λ x. x == k) ((==_iff i j).0 ij) in
          elim (Bool-cases (j == k)) [ inl e ↦ ground arith | inr e ↦ ground arith ]
      | inr ij ↦ elim (Bool-cases (i == k)) [
        | inl e ↦
            let jk : (j == k) ≡ false = elim (Bool-cases (j == k)) [
              | inl f ↦ let ij' = (==_iff i j).1 ((==_iff i k).0 e ∙ sym ((==_iff j k).0 f)) in cc
              | inr f ↦ f
            ] in
            ground arith
        | inr e ↦ ground (arith, rest)
      ]
    ]

module _ (from : DirectiveMap) where
  -- What the keys that are left can still add under a name.
  abbrev left_of : DirectiveMap → String → Option DirectiveDecl
  left_of [] k = none
  left_of ((j, _) ∷ left) k = if j == k then declared from k else left_of left k

  left_of-or :
      (left : DirectiveMap) (k : String)
      → or_else_some (declared from k) (left_of left k) ≡ declared from k
  left_of-or [] k = sym (or_none (declared from k))
  left_of-or ((j, _) ∷ left) k = elim (Bool-cases (j == k)) [
    | inl e ↦ rw e (or_itself (declared from k))
    | inr e ↦ rw e (left_of-or left k)
  ]

  left_of-idle :
      (m left : DirectiveMap) (j : String) (v : Option DirectiveDecl) (w : DirectiveDecl)
      (k : String)
      → declared m j ≡ some w
      → or_else_some (declared m k) (left_of left k)
        ≡ or_else_some (declared m k) (left_of ((j, v) ∷ left) k)
  unfolding or_else_some
  left_of-idle m left j v w k e = elim (Bool-cases (j == k)) [
    | inl same ↦
        let jk : j ≡ k = (==_iff j k).0 same in
        let found : declared m k ≡ some w = cc in rw found refl
    | inr other ↦ rw other refl
  ]

  left_of-new :
      (m left : DirectiveMap) (j : String) (v : Option DirectiveDecl) (k : String)
      → declared m j ≡ none
      → or_else_some (declared (assign ◌==◌ m j (declared from j)) k) (left_of left k)
        ≡ or_else_some (declared m k) (left_of ((j, v) ∷ left) k)
  unfolding or_else_some
  left_of-new m left j v k e =
      rw (declared-assign m j (declared from j) k) (elim (Bool-cases (j == k)) [
        | inl same ↦
            let jk : j ≡ k = (==_iff j k).0 same in
            let absent : declared m k ≡ none = cc in rw (same, absent) (rw jk (left_of-or left k))
        | inr other ↦ rw other refl
      ])

  declared-merge_left :
      (left m : DirectiveMap) (k : String)
      → declared (merge_directives from left m) k ≡ or_else_some (declared m k) (left_of left k)
  unfolding merge_directives
  declared-merge_left [] m k = or_none (declared m k)
  declared-merge_left ((j, v) ∷ left) m k = elim (Option-cases (declared m j)) [
    | inr (w, e) ↦ rw e (declared-merge_left left m k ∙ left_of-idle m left j v w k e)
    | inl e ↦ rw e (declared-merge_left left _ k ∙ left_of-new m left j v k e)
  ]

  left_of-absent :
      (left : DirectiveMap) (k : String) → find ◌==◌ left k ≡ none → left_of left k ≡ none
  unfolding find
  left_of-absent [] k e = refl
  left_of-absent ((j, v) ∷ left) k e = elim (Bool-cases (j == k)) [
    | inl same ↦ cc
    | inr other ↦ rw other (left_of-absent left k (cc))
  ]

  left_of-present :
      (left : DirectiveMap) (k : String) (v : Option DirectiveDecl)
      → find ◌==◌ left k ≡ some v
      → left_of left k ≡ declared from k
  unfolding find
  left_of-present [] k v e = cc
  left_of-present ((j, w) ∷ left) k v e = elim (Bool-cases (j == k)) [
    | inl same ↦ rw same refl
    | inr other ↦ rw other (left_of-present left k v (cc))
  ]

  left_of-all : (k : String) → left_of from k ≡ declared from k
  unfolding declared
  left_of-all k = elim (Option-cases (find ◌==◌ from k)) [
    | inl e ↦ left_of-absent from k e ∙ sym (ap (λ o. if_some o (λ entry. entry) none) e)
    | inr (v, e) ↦ left_of-present from k v e
  ]

-- `Schema.AddIfMissing` adds what is missing: a type or a directive of a name is in the result the one
-- of the schema that is added to, if it has one, and else the one of the other schema; a nil entry
-- for a directive counts as none.
pub find-add_schema :
    (from to : Schema) (name : String)
    → (find ◌==◌ (add_schema from to).types name
        ≡ or_else_some (find ◌==◌ to.types name) (find ◌==◌ from.types name))
      × (declared (add_schema from to).declared_directives name
          ≡ or_else_some
              (declared to.declared_directives name)
              (declared from.declared_directives name))
unfolding add_schema
find-add_schema from to name = (
  find-merge from.types to.types name,
  declared-merge_left from.declared_directives from.declared_directives to.declared_directives name
      ∙ ap (or_else_some (declared to.declared_directives name))
          (left_of-all from.declared_directives name),
)

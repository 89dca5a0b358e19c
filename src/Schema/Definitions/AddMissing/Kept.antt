-- ===== src/Schema/Definitions/AddMissing/Kept.antt =====
-- About `AddIfMissing` of schema/type_add_if_missing.go.
use graphql.Prelude.{
  ℕ, zero, suc, ◌<◌, ◌≤◌, ◌≡◌, refl, sym, subst, String, List, [], ◌∷◌, none, some, ◌==◌, ==_iff,
  Bool-cases, Option-cases, inl, inr, arith, length, if◌then◌else◌,
}
use graphql.Prelude.Result.{ok, Ensures, holds, Ensures-bind, Ensures-map}
use graphql.Schema.Types.Parse.{SchemaType, list, non_null, type_name, named}
use graphql.Schema.Values.Parse.{DirectiveList, InputValue}
use graphql.Schema.Definitions.{
  Field, TypeDef, scalar_def, object_def, interface_def, union_def, enum_def, input_def, name_of,
  Schema,
}
use graphql.Schema.Definitions.Maps.{find, assign, Every-find}
use graphql.Schema.Definitions.Alter.{TypeMap, if_some-elim, if_some-cases, is_none}
use graphql.Schema.Definitions.Alter.Keys.{KeysAgree}
use graphql.Schema.Definitions.Visit.{for_each, ◌then_do◌}
use graphql.Schema.Definitions.AddMissing.{
  declared, Adding, add_directives, adding_directives, add_named, add_type, add_input_value,
  add_field, add_parts, add_if_missing_type,
}

-- The types of the first map stand in the second one too, under the same keys.
abbrev pub Within : TypeMap → TypeMap → Type 0
Within m m' = (k : String) (t : TypeDef) → find ◌==◌ m k ≡ some t → find ◌==◌ m' k ≡ some t

-- How many entries of the first map have keys that the second one lacks.
unfoldable lacking : TypeMap → TypeMap → ℕ
lacking [] m = 0
lacking ((k, t) ∷ l) m =
    let rest = lacking l m in if is_none (find ◌==◌ m k) then suc rest else rest

lacking-length : (l m : TypeMap) → lacking l m ≤ length l
unfolding lacking
lacking-length [] m = omega arith
lacking-length ((k, t) ∷ l) m = elim (Bool-cases (is_none (find ◌==◌ m k))) [
  | inl e ↦ rw e (omega (arith, lacking-length l m))
  | inr e ↦ rw e (omega (arith, lacking-length l m))
]

lacking-Within : (l m m' : TypeMap) → Within m m' → lacking l m' ≤ lacking l m
unfolding lacking
lacking-Within [] m m' h = omega arith
lacking-Within ((k, t) ∷ l) m m' h = elim (Option-cases (find ◌==◌ m k)) [
  | inr (u, e) ↦ rw (e, h k u e) (lacking-Within l m m' h)
  | inl e ↦ rw e (elim (Option-cases (find ◌==◌ m' k)) [
    | inl e' ↦ rw e' (omega (arith, lacking-Within l m m' h))
    | inr (u, e') ↦ rw e' (omega (arith, lacking-Within l m m' h))
  ])
]

-- A key that is found in the first map and not in the second is one less, once it is there.
lacking-found :
    (l m m' : TypeMap) (k : String) (t u : TypeDef)
    → find ◌==◌ l k ≡ some t
    → find ◌==◌ m k ≡ none
    → find ◌==◌ m' k ≡ some u
    → Within m m'
    → lacking l m' < lacking l m
unfolding lacking find
lacking-found [] m m' k t u e absent there h = cc
lacking-found ((j, v) ∷ l) m m' k t u e absent there h = elim (Bool-cases (j == k)) [
  | inl same ↦
      let jk : j ≡ k = (==_iff j k).0 same in
      let before : find ◌==◌ m j ≡ none = cc in
      let after : find ◌==◌ m' j ≡ some u = cc in
      rw (before, after) (omega (arith, lacking-Within l m m' h))
  | inr other ↦
      let rest = lacking-found l m m' k t u (cc) absent there h in
      elim (Option-cases (find ◌==◌ m j)) [
        | inr (w, before) ↦ rw (before, h j w before) rest
        | inl before ↦ rw before (elim (Option-cases (find ◌==◌ m' j)) [
          | inl after ↦ rw after (omega (arith, rest))
          | inr (w, after) ↦ rw after (omega (arith, rest))
        ])
      ]
]

Within-assign :
    (m : TypeMap) (k : String) (t : TypeDef) → find ◌==◌ m k ≡ none → Within m (assign ◌==◌ m k t)
unfolding find assign
Within-assign [] k t e j u f = cc
Within-assign ((i, v) ∷ m) k t e j u f = elim (Bool-cases (i == k)) [
  | inl ik ↦ cc
  | inr ik ↦ rw ik (elim (Bool-cases (i == j)) [
    | inl ij ↦ rw ij (cc)
    | inr ij ↦ rw ij (Within-assign m k t (cc) j u (cc))
  ])
]

find-assign : (m : TypeMap) (k : String) (t : TypeDef) → find ◌==◌ (assign ◌==◌ m k t) k ≡ some t
unfolding find assign
find-assign [] k t = rw ((==_iff k k).1 refl) refl
find-assign ((j, l) ∷ m) k t = elim (Bool-cases (j == k)) [
  | inl e ↦ rw (e, e) refl
  | inr e ↦ rw (e, e) (find-assign m k t)
]

module _ (from : Schema) (agree : KeysAgree from.types) where
  abbrev missing : Schema → ℕ
  missing to = lacking from.types to.types

  -- A call that keeps what stands in the schema.
  abbrev Keeps : Schema → Schema → Type 0
  Keeps to to' = Within to.types to'.types

  Keeps-then : (a b c : Schema) → Keeps a b → Keeps b c → Keeps a c
  Keeps-then a b c f g k t e = g k t (f k t e)

  directives-types :
      (ds : DirectiveList) (to : Schema) → (add_directives from ds to).types ≡ to.types
  unfolding add_directives
  directives-types [] to = refl
  directives-types (d ∷ ds) to =
      let P = λ (to' : Schema). (add_directives from ds to').types ≡ to.types in
      if_some-elim P (declared to.declared_directives d.name) (λ _. directives-types ds to)
        (directives-types ds _)

  module _ (f : ℕ) (add : TypeDef → Adding)
      (adds : (k : String) (t : TypeDef)
        → find ◌==◌ from.types k ≡ some t
        → (to : Schema) → missing to < f
        → Ensures (Keeps to) (add t to)) where
    -- A step that may be taken where this much is missing.
    abbrev Step : Adding → Type 0
    Step run = (to : Schema) → missing to < f → Ensures (Keeps to) (run to)

    still : Step ok
    still to le = holds (λ k t e. e)

    then-Step : (first second : Adding) → Step first → Step second → Step (first then_do second)
    then-Step first second h g to le = Ensures-bind (h to le) λ to1 k1.
        Ensures-map (g to1 (omega (arith, le, lacking-Within from.types to.types to1.types k1)))
          λ to2 k2. Keeps-then to to1 to2 k1 k2

    each-Step :
        {A : Type 0} (act : A → Adding) (l : List A)
        → ((a : A) → Step (act a))
        → Step (for_each act l)
    unfolding for_each
    each-Step act [] h = still
    each-Step act (a ∷ l) h = then-Step (act a) (for_each act l) (h a) (each-Step act l h)

    directives-Step : (ds : DirectiveList) → Step (adding_directives from ds)
    directives-Step ds to le = holds (λ k t e. rw (directives-types ds to) e)

    named-Step : (name : String) → Step (add_named from add name)
    unfolding add_named
    named-Step name to le =
        if_some-cases (Ensures (Keeps to)) (find ◌==◌ from.types name)
          (λ t found. adds name t found to le) (λ absent. holds (λ k t e. e))

    type-Step : (t : SchemaType) → Step (add_type from add t)
    unfolding add_type
    type-Step (list t) = type-Step t
    type-Step (non_null t) = type-Step t
    type-Step (type_name name loc) = still
    type-Step (named n) = named-Step n.name

    input-Step : (v : InputValue) → Step (add_input_value from add v)
    unfolding add_input_value
    input-Step v = then-Step _ _ (type-Step v.type) (directives-Step v.directives)

    field-Step : (g : Field) → Step (add_field from add g)
    unfolding add_field
    field-Step g =
        then-Step _ _ (then-Step _ _ (directives-Step g.directives) (type-Step g.type))
          (each-Step _ g.args input-Step)

    parts-Step : (t : TypeDef) → Step (add_parts from add t)
    unfolding add_parts
    parts-Step (scalar_def t) = still
    parts-Step (object_def t) =
        then-Step _ _ (directives-Step t.directives) (each-Step _ t.fields field-Step)
    parts-Step (interface_def t) =
        then-Step _ _ (directives-Step t.directives) (each-Step _ t.fields field-Step)
    parts-Step (union_def t) =
        then-Step _ _ (directives-Step t.directives) (each-Step _ t.possible_types named-Step)
    parts-Step (enum_def t) =
        then-Step _ _ (directives-Step t.directives)
          (each-Step _ t.values λ v. directives-Step v.directives)
    parts-Step (input_def t) =
        then-Step _ _ (directives-Step t.directives) (each-Step _ t.fields input-Step)

  Added : TypeDef → Schema → Schema → Type 0
  Added t to to' = Keeps to to' × ((u : TypeDef) × (find ◌==◌ to'.types (name_of t) ≡ some u))

  add-Added :
      (f : ℕ) (k : String) (t : TypeDef)
      → find ◌==◌ from.types k ≡ some t
      → (to : Schema) → missing to < f
      → Ensures (Added t to) (add_if_missing_type from f t to)
  unfolding add_if_missing_type Added
  add-Added zero k t found to lt = absurd (omega (arith, lt))
  add-Added (suc f) k t found to lt =
      if_some-cases (Ensures (Added t to)) (find ◌==◌ to.types (name_of t))
        (λ u there. holds (λ j v e. e, (u, there)))
        (λ absent.
          let key : name_of t ≡ k =
            Every-find (λ (k : String) (t : TypeDef). name_of t ≡ k) from.types k t agree found in
          let m = assign ◌==◌ to.types (name_of t) t in
          let kept = Within-assign to.types (name_of t) t absent in
          let there = find-assign to.types (name_of t) t in
          let less =
            lacking-found from.types to.types m (name_of t) t t
              (subst (λ n. find ◌==◌ from.types n ≡ some t) (sym key) found) absent there kept in
          Ensures-map
            (parts-Step f _
              (λ j u e to' lt'. Ensures-map (add-Added f j u e to' lt') λ to'' (keeps, _). keeps) t
              (record to { types = m }) (omega (arith, less, lt)))
            λ to' keeps. (λ j v e. keeps j v (kept j v e), (t, keeps (name_of t) t there)))

  -- If every type of the first schema stands under its own name, then with one more unit of fuel than
  -- it has types `AddIfMissing` of one of its types returns, also where types mention each other in a
  -- circle. Every type that the second schema had still stands under its key, unchanged, and a type
  -- of that name is there.
  pub add_if_missing_type-Keeps :
      (k : String) (t : TypeDef) (to : Schema)
      → find ◌==◌ from.types k ≡ some t
      → Ensures
          (λ (to' : Schema).
            Within to.types to'.types
            × ((u : TypeDef) × (find ◌==◌ to'.types (name_of t) ≡ some u)))
          (add_if_missing_type from (suc (length from.types)) t to)
  unfolding Added
  add_if_missing_type-Keeps k t to found =
      add-Added (suc (length from.types)) k t found to
        (omega (arith, lacking-length from.types to.types))

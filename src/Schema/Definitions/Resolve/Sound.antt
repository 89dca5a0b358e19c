-- ===== src/Schema/Definitions/Resolve/Sound.antt =====
-- About `ResolveTypes` of schema/schema.go: the types of fields, arguments and input fields.
use graphql.Prelude.{
  ◌≡◌, refl, String, List, [], ◌∷◌, none, some, ◌==◌, Option, Option-cases, inl, inr, Each, subst,
}
use graphql.Prelude.Result.{Result, Ensures, holds, stopped, Ensures-bind}
use graphql.Schema.Types.Parse.{
  NamedType, SchemaType, list, non_null, type_name, named, deepest_type, UnknownType,
}
use graphql.Schema.Types.Resolve.{
  rewrap, Resolution, settled, replaced, missing, resolve_type-Resolution,
}
use graphql.Schema.Values.Parse.{
  ArgumentList, Directive, DirectiveList, InputValue, InputValueList, get_input_value,
}
use graphql.Schema.Definitions.{
  Field, FieldList, TypeDef, scalar_def, object_def, interface_def, union_def, enum_def, input_def,
  kind_of, DirectiveDecl, DirectiveMap,
}
use graphql.Schema.Definitions.Maps.{find}
use graphql.Schema.Definitions.Alter.{TypeMap, if_some-elim}
use graphql.Schema.Definitions.Resolve.{
  Resolving, map_each, fold_each, or_unknown, resolve, check_arguments, resolve_directive,
  resolve_directives, resolve_input_value, resolve_input_object, resolve_field, resolve_named_type,
}

-- A property of the types that the definition of a type mentions.
abbrev pub InputsHave : (SchemaType → Type 0) → InputValueList → Type 0
InputsHave P = Each (λ (v : InputValue). P v.type)

abbrev pub FieldsHave : (SchemaType → Type 0) → FieldList → Type 0
FieldsHave P = Each (λ (f : Field). P f.type × InputsHave P f.args)

abbrev pub TypesHave : (SchemaType → Type 0) → TypeDef → Type 0
TypesHave P (object_def t) = FieldsHave P t.fields
TypesHave P (interface_def t) = FieldsHave P t.fields
TypesHave P (input_def t) = InputsHave P t.fields
TypesHave P _ = Unit

abbrev pub DeclaredHas : (SchemaType → Type 0) → Option DirectiveDecl → Type 0
DeclaredHas P none = Unit
DeclaredHas P (some d) = InputsHave P d.args

-- The loops over lists.
pub map_each-Ensures :
    {A B : Type 0} (P : A → Type 0) (Q : B → Type 0) (f : A → Resolving B)
    → ((a : A) → P a → Ensures Q (f a))
    → (l : List A) → Each P l
    → Ensures (Each Q) (map_each f l)
unfolding map_each
map_each-Ensures P Q f step [] h = holds tt
map_each-Ensures P Q f step (a ∷ l) h =
    Ensures-bind (step a h.0)
      λ b q. Ensures-bind (map_each-Ensures P Q f step l h.1) λ m r. holds (q, r)

pub fold_each-Ensures :
    {A S : Type 0} (P : A → Type 0) (Q : S → Type 0) (f : S → A → Resolving S)
    → ((s : S) (a : A) → Q s → P a → Ensures Q (f s a))
    → (s : S) (l : List A) → Q s
    → Each P l
    → Ensures Q (fold_each f s l)
unfolding fold_each
fold_each-Ensures P Q f step s [] q h = holds q
fold_each-Ensures P Q f step s (a ∷ l) q h =
    Ensures-bind (step s a q h.0) λ s' q'. fold_each-Ensures P Q f step s' l q' h.1

abbrev pub Always : {A : Type 0} → A → Type 0
Always _ = Unit

pub Each-Always : {A : Type 0} (l : List A) → Each Always l
Each-Always [] = tt
Each-Always (_ ∷ l) = (tt, Each-Always l)

module _ (types : TypeMap) where
  -- A type that leads to no other type than one of the schema's, under its name and of its kind.
  abbrev pub NoStray : SchemaType → Type 0
  NoStray t = (n : NamedType) → deepest_type t ≡ named n → resolve types n.name ≡ some n

  -- A type that leads to a type of the schema.
  abbrev pub Leads : SchemaType → Type 0
  Leads t = (n : NamedType) × (deepest_type t ≡ named n) × (resolve types n.name ≡ some n)

  resolve-found :
      (name : String) (t : TypeDef)
      → find ◌==◌ types name ≡ some t
      → resolve types name ≡ some (record { kind = kind_of t; name = name })
  unfolding resolve
  resolve-found name t e = rw e refl

  resolve-missing : (name : String) → find ◌==◌ types name ≡ none → resolve types name ≡ none
  unfolding resolve
  resolve-missing name e = rw e refl

  resolve-named :
      (name : String) (n : NamedType) → resolve types name ≡ some n → resolve types n.name ≡ some n
  resolve-named name n e = elim (Option-cases (find ◌==◌ types name)) [
    | inl none_e ↦ let gone = resolve-missing name none_e in cc
    | inr (t, some_e) ↦
        let found = resolve-found name t some_e in
        let same : record { kind = kind_of t; name = name } ≡ n = cc in
        subst (λ (n : NamedType). resolve types n.name ≡ some n) same found
  ]

  deepest_type-rewrap : (t : SchemaType) (n : NamedType) → deepest_type (rewrap t n) ≡ named n
  unfolding deepest_type rewrap
  deepest_type-rewrap (list t) n = deepest_type-rewrap t n
  deepest_type-rewrap (non_null t) n = deepest_type-rewrap t n
  deepest_type-rewrap (type_name _ _) n = refl
  deepest_type-rewrap (named _) n = refl

  or_unknown-Ensures :
      (t : SchemaType) (r : Result UnknownType SchemaType)
      → Resolution (resolve types) t r
      → NoStray t
      → Ensures Leads (or_unknown r)
  or_unknown-Ensures t _ (settled n e) h = holds (n, e, h n e)
  or_unknown-Ensures t _ (replaced name loc n e k) h =
      holds (n, deepest_type-rewrap t n, resolve-named name n k)
  or_unknown-Ensures t _ (missing name loc e k) h = stopped

  or_unknown-Ends :
      (t : SchemaType) (r : Result UnknownType SchemaType)
      → Resolution (resolve types) t r
      → Ensures Always (or_unknown r)
  or_unknown-Ends t _ (settled n e) = holds tt
  or_unknown-Ends t _ (replaced name loc n e k) = holds tt
  or_unknown-Ends t _ (missing name loc e k) = stopped

module _ (directives : DirectiveMap) where
  check_arguments-Ensures :
      (name : String) (decls : InputValueList) (args : ArgumentList)
      → Ensures Always (check_arguments directives name decls args)
  unfolding check_arguments
  check_arguments-Ensures name decls [] = holds tt
  check_arguments-Ensures name decls (arg ∷ args) =
      if_some-elim (Ensures Always) (get_input_value decls arg.name)
        (λ _. check_arguments-Ensures name decls args) stopped

  pub resolve_directive-Ensures : (d : Directive) → Ensures Always (resolve_directive directives d)
  unfolding resolve_directive
  resolve_directive-Ensures d =
      if_some-elim (Ensures Always) (find ◌==◌ directives d.name)
        (λ entry.
          if_some-elim (Ensures Always) entry
            (λ dd. Ensures-bind (check_arguments-Ensures d.name dd.args d.args) λ _ _. holds tt)
            stopped)
        stopped

  pub resolve_directives-Ensures :
      (l : DirectiveList) → Ensures (Each Always) (resolve_directives directives l)
  unfolding resolve_directives
  resolve_directives-Ensures l =
      map_each-Ensures Always Always (resolve_directive directives)
        (λ d _. resolve_directive-Ensures d) l (Each-Always l)

  module _ (types : TypeMap) where
    pub input_value-Ensures :
        (v : InputValue)
        → NoStray types v.type
        → Ensures (λ (v : InputValue). Leads types v.type) (resolve_input_value directives types v)
    unfolding resolve_input_value
    input_value-Ensures v h =
        Ensures-bind
          (or_unknown-Ensures types v.type _ (resolve_type-Resolution (resolve types) v.type) h)
          λ t k. holds k

    pub input_object-Ensures :
        (l : InputValueList)
        → InputsHave (NoStray types) l
        → Ensures (InputsHave (Leads types)) (resolve_input_object directives types l)
    unfolding resolve_input_object
    input_object-Ensures l h = map_each-Ensures _ _ _ input_value-Ensures l h

    -- The same, where only the end matters.
    input_value-Ends : (v : InputValue) → Ensures Always (resolve_input_value directives types v)
    unfolding resolve_input_value
    input_value-Ends v =
        Ensures-bind (or_unknown-Ends types _ _ (resolve_type-Resolution (resolve types) v.type))
          λ t _. holds tt

    pub input_object-Ends :
        (l : InputValueList) → Ensures (Each Always) (resolve_input_object directives types l)
    unfolding resolve_input_object
    input_object-Ends l =
        map_each-Ensures Always Always _ (λ v _. input_value-Ends v) l (Each-Always l)

    pub field-Ends : (f : Field) → Ensures Always (resolve_field directives types f)
    unfolding resolve_field
    field-Ends f =
        Ensures-bind (or_unknown-Ends types _ _ (resolve_type-Resolution (resolve types) f.type))
          λ t _.
            Ensures-bind (resolve_directives-Ensures f.directives)
              λ ds _. Ensures-bind (input_object-Ends f.args) λ args _. holds tt

    field-Ensures :
        (f : Field)
        → NoStray types f.type × InputsHave (NoStray types) f.args
        → Ensures
            (λ (f : Field). Leads types f.type × InputsHave (Leads types) f.args)
            (resolve_field directives types f)
    unfolding resolve_field
    field-Ensures f h =
        Ensures-bind
          (or_unknown-Ensures types f.type _ (resolve_type-Resolution (resolve types) f.type) h.0)
          λ t k.
            Ensures-bind (resolve_directives-Ensures f.directives)
              λ ds _. Ensures-bind (input_object-Ensures f.args h.1) λ args ks. holds (k, ks)

    fields-Ensures :
        (l : FieldList)
        → FieldsHave (NoStray types) l
        → Ensures (FieldsHave (Leads types)) (map_each (resolve_field directives types) l)
    fields-Ensures l h = map_each-Ensures _ _ _ field-Ensures l h

    pub named_type-Ensures :
        (t : TypeDef)
        → TypesHave (NoStray types) t
        → Ensures (TypesHave (Leads types)) (resolve_named_type directives types t)
    unfolding resolve_named_type
    named_type-Ensures (object_def t) h = Ensures-bind (fields-Ensures t.fields h) λ fs k. holds k
    named_type-Ensures (interface_def t) h =
        Ensures-bind (fields-Ensures t.fields h) λ fs k. holds k
    named_type-Ensures (input_def t) h =
        Ensures-bind (input_object-Ensures t.fields h) λ fs k. holds k
    named_type-Ensures (scalar_def t) h = holds tt
    named_type-Ensures (union_def t) h = holds tt
    named_type-Ensures (enum_def t) h = holds tt

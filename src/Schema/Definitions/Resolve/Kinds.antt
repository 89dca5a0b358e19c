-- ===== src/Schema/Definitions/Resolve/Kinds.antt =====
-- About `ResolveTypes` of schema/schema.go: behind the first loop the names lead to types of the same
-- kind, and so do the arguments of directives.
use graphql.Prelude.{
  ◌≡◌, refl, sym, ap, none, some, Option, ◌∙◌, String, [], ◌∷◌, ◌==◌, Bool-cases, inl, inr,
}
use graphql.Prelude.Result.{stopped, Ensures, holds, Ensures-bind, Ensures-map}
use graphql.Lexer.Parser.{GoLibrary}
use graphql.Schema.Types.Parse.{NamedType, Kind}
use graphql.Schema.Values.Parse.{InputValue}
use graphql.Schema.Definitions.{
  TypeDef, scalar_def, object_def, interface_def, union_def, enum_def, input_def, kind_of,
  DirectiveDecl, DirectiveMap,
}
use graphql.Schema.Definitions.Maps.{find}
use graphql.Schema.Definitions.Alter.{TypeMap}
use graphql.Schema.Definitions.Sort.{sort_type, sort_input_values}
use graphql.Schema.Definitions.Resolve.{
  map_each, resolve, resolve_named_type, resolve_input_object, resolve_entry, resolve_declaration,
  resolve_input_value,
}
use graphql.Schema.Definitions.Resolve.Sound.{
  DeclaredHas, NoStray, Leads, Always, Each-Always, map_each-Ensures, field-Ends, input_object-Ends,
  input_value-Ensures,
}
use graphql.Schema.Definitions.Resolve.Sorted.{SortLaws, inputs-sorted}

module _ (go : GoLibrary) (directives : DirectiveMap) (types : TypeMap) where
  named_type-kind :
      (t : TypeDef)
      → Ensures (λ (t' : TypeDef). kind_of t' ≡ kind_of t) (resolve_named_type directives types t)
  unfolding resolve_named_type
  named_type-kind (object_def t) =
      Ensures-bind
        (map_each-Ensures Always Always _ (λ f _. field-Ends directives types f) t.fields
          (Each-Always t.fields))
        λ fs _. holds refl
  named_type-kind (interface_def t) =
      Ensures-bind
        (map_each-Ensures Always Always _ (λ f _. field-Ends directives types f) t.fields
          (Each-Always t.fields))
        λ fs _. holds refl
  named_type-kind (input_def t) =
      Ensures-bind (input_object-Ends directives types t.fields) λ fs _. holds refl
  named_type-kind (scalar_def t) = holds refl
  named_type-kind (union_def t) = holds refl
  named_type-kind (enum_def t) = holds refl

  sort_type-kind : (t : TypeDef) → kind_of (sort_type go t) ≡ kind_of t
  unfolding sort_type
  sort_type-kind (object_def t) = refl
  sort_type-kind (interface_def t) = refl
  sort_type-kind (input_def t) = refl
  sort_type-kind (scalar_def t) = refl
  sort_type-kind (union_def t) = refl
  sort_type-kind (enum_def t) = refl

  entry-kind :
      (k : String) (t : TypeDef)
      → Ensures
          (λ (r : String × TypeDef). (r.0 ≡ k) × (kind_of r.1 ≡ kind_of t))
          (resolve_entry go directives types (k, t))
  unfolding resolve_entry
  entry-kind k t = Ensures-bind (named_type-kind t) λ t' e. holds (refl, sort_type-kind t' ∙ e)

  -- Every name leads to the same in both maps.
  abbrev pub SameNames : TypeMap → TypeMap → Type 0
  SameNames m m' = (name : String) → resolve m' name ≡ resolve m name

  SameNames-cons :
      (k : String) (t t' : TypeDef) (m m' : TypeMap)
      → kind_of t' ≡ kind_of t
      → SameNames m m'
      → SameNames ((k, t) ∷ m) ((k, t') ∷ m')
  unfolding resolve find
  SameNames-cons k t t' m m' e same name = elim (Bool-cases (k == name)) [
    | inl here ↦
        rw here (
          ap {B = Option NamedType} (λ (kind : Kind). some (record { kind = kind; name = name })) e)
    | inr there ↦ rw there (same name)
  ]

  pub entries-SameNames :
      (m : TypeMap) → Ensures (SameNames m) (map_each (resolve_entry go directives types) m)
  unfolding map_each
  entries-SameNames [] = holds (λ name. refl)
  entries-SameNames ((k, t) ∷ m) = Ensures-bind (entry-kind k t) λ (k', t') (ek, et).
      Ensures-bind (entries-SameNames m)
        λ m' same. holds (rw ek (SameNames-cons k t t' m m' et same))

module _ (go : GoLibrary) (laws : SortLaws go) (directives : DirectiveMap) (before types : TypeMap)
    (same : (name : String) → resolve types name ≡ resolve before name) where
  argument-Leads :
      (v : InputValue)
      → NoStray before v.type
      → Ensures (λ (v : InputValue). Leads before v.type) (resolve_input_value directives types v)
  argument-Leads v h =
      Ensures-map (input_value-Ensures directives types v λ n e. same n.name ∙ h n e)
        λ v' (n, e, r). (n, e, sym (same n.name) ∙ r)

  pub declaration-Leads :
      (e : String × Option DirectiveDecl)
      → DeclaredHas (NoStray before) e.1
      → Ensures
          (λ (e : String × Option DirectiveDecl). DeclaredHas (Leads before) e.1)
          (resolve_declaration go directives types e)
  unfolding resolve_declaration resolve_input_object
  declaration-Leads (key, none) h = stopped
  declaration-Leads (key, some d) h =
      Ensures-bind
        (map_each-Ensures _ _ _ argument-Leads (sort_input_values go d.args)
          (inputs-sorted go laws (NoStray before) d.args h))
        λ args k. holds k

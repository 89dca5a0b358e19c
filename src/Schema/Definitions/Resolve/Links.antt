-- ===== src/Schema/Definitions/Resolve/Links.antt =====
-- About `ResolveTypes` of schema/schema.go: sorting, links and the whole.
use graphql.Prelude.{◌≡◌, refl, String, List, [], ◌∷◌, Option, none, some, ◌==◌, Each}
use graphql.Prelude.Result.{Ensures, holds, stopped, Ensures-bind, Ensures-both}
use graphql.Lexer.Parser.{GoLibrary}
use graphql.Schema.Types.Parse.{NamedType, SchemaType}
use graphql.Schema.Query.Parse.{OperationType}
use graphql.Schema.Definitions.{
  Object, Union, Enum, EnumValue, TypeDef, scalar_def, object_def, interface_def, union_def,
  enum_def, input_def, DirectiveDecl, DirectiveMap, Schema,
}
use graphql.Schema.Definitions.Maps.{assign, Every, Every-assign, Every-find}
use graphql.Schema.Definitions.Alter.{TypeMap, if_some-elim}
use graphql.Schema.Definitions.Resolve.{
  resolve, objects_of, unions_of, enums_of, add_possible, link_interface, link_object, as_object,
  link_union, resolve_enum_value, resolve_enum, resolve_entry, resolve_entry_point, resolve_types,
}
use graphql.Schema.Definitions.Resolve.Sound.{
  DeclaredHas, FieldsHave, TypesHave, NoStray, Leads, Always, Each-Always, map_each-Ensures,
  fold_each-Ensures, resolve_directives-Ensures, named_type-Ensures,
}
use graphql.Schema.Definitions.Resolve.Sorted.{SortLaws, type-sorted}
use graphql.Schema.Definitions.Resolve.Kinds.{entries-SameNames, declaration-Leads}

module _ (go : GoLibrary) (laws : SortLaws go) where
  module _ (P : SchemaType → Type 0) where
    -- The types of a schema that have the property.
    abbrev MapHas : TypeMap → Type 0
    MapHas = Every (λ (_ : String) (t : TypeDef). TypesHave P t)

    put-MapHas :
        (m : TypeMap) (k : String) (t : TypeDef)
        → MapHas m
        → TypesHave P t
        → MapHas (assign ◌==◌ m k t)
    put-MapHas m k t h p = Every-assign (λ (_ : String) (t : TypeDef). TypesHave P t) m k t h p

    objects_of-Has :
        (m : TypeMap)
        → MapHas m
        → Each (λ (e : String × Object). FieldsHave P e.1.fields) (objects_of m)
    unfolding objects_of
    objects_of-Has [] h = tt
    objects_of-Has ((k, object_def t) ∷ m) h = (h.0, objects_of-Has m h.1)
    objects_of-Has ((k, scalar_def t) ∷ m) h = objects_of-Has m h.1
    objects_of-Has ((k, interface_def t) ∷ m) h = objects_of-Has m h.1
    objects_of-Has ((k, union_def t) ∷ m) h = objects_of-Has m h.1
    objects_of-Has ((k, enum_def t) ∷ m) h = objects_of-Has m h.1
    objects_of-Has ((k, input_def t) ∷ m) h = objects_of-Has m h.1

    add_possible-Ensures :
        (m : TypeMap) (object name : String) (o : Option TypeDef)
        → MapHas m
        → ((t : TypeDef) → o ≡ some t → TypesHave P t)
        → Ensures MapHas (add_possible m object name o)
    add_possible-Ensures m object name none h p = stopped
    add_possible-Ensures m object name (some (interface_def t)) h p =
        holds (put-MapHas m name _ h (p (interface_def t) refl))
    add_possible-Ensures m object name (some (scalar_def t)) h p = stopped
    add_possible-Ensures m object name (some (object_def t)) h p = stopped
    add_possible-Ensures m object name (some (union_def t)) h p = stopped
    add_possible-Ensures m object name (some (enum_def t)) h p = stopped
    add_possible-Ensures m object name (some (input_def t)) h p = stopped

    link_interface-Ensures :
        (object : String) (m : TypeMap) (name : String)
        → MapHas m
        → Ensures MapHas (link_interface object m name)
    unfolding link_interface
    link_interface-Ensures object m name h =
        add_possible-Ensures m object name _ h
          λ t e. Every-find (λ (_ : String) (t : TypeDef). TypesHave P t) m name t h e

    link_object-Ensures :
        (m : TypeMap) (e : String × Object)
        → MapHas m
        → FieldsHave P e.1.fields
        → Ensures MapHas (link_object m e)
    unfolding link_object
    link_object-Ensures m (key, obj) h p =
        Ensures-bind
          (fold_each-Ensures Always MapHas (link_interface obj.name)
            (λ m name k _. link_interface-Ensures obj.name m name k) m obj.interface_names h
            (Each-Always obj.interface_names))
          λ m' k. holds (put-MapHas m' key _ k p)

    as_object-Ensures : (name : String) (o : Option TypeDef) → Ensures Always (as_object name o)
    as_object-Ensures name none = stopped
    as_object-Ensures name (some (object_def t)) = holds tt
    as_object-Ensures name (some (scalar_def t)) = stopped
    as_object-Ensures name (some (interface_def t)) = stopped
    as_object-Ensures name (some (union_def t)) = stopped
    as_object-Ensures name (some (enum_def t)) = stopped
    as_object-Ensures name (some (input_def t)) = stopped

    link_union-Ensures :
        (m : TypeMap) (e : String × Union) → MapHas m → Ensures MapHas (link_union go m e)
    unfolding link_union
    link_union-Ensures m (key, union) h =
        Ensures-bind
          (map_each-Ensures Always Always _ (λ name _. as_object-Ensures name _) union.type_names
            (Each-Always union.type_names))
          λ names _. holds (put-MapHas m key _ h tt)

    enum_value-Ensures :
        (ds : DirectiveMap) (v : EnumValue) → Ensures Always (resolve_enum_value go ds v)
    unfolding resolve_enum_value
    enum_value-Ensures ds v =
        Ensures-bind (resolve_directives-Ensures ds v.directives) λ _ _. holds tt

    enum-Ensures :
        (ds : DirectiveMap) (m : TypeMap) (e : String × Enum)
        → MapHas m
        → Ensures MapHas (resolve_enum go ds m e)
    unfolding resolve_enum
    enum-Ensures ds m (key, enum) h =
        Ensures-bind
          (map_each-Ensures Always Always _ (λ v _. enum_value-Ensures ds v) enum.values
            (Each-Always enum.values))
          λ values _. holds (put-MapHas m key _ h tt)

  module _ (s : Schema) where
    -- What holds before, and what after.
    abbrev Before : Type 0
    Before = Every (λ (_ : String) (t : TypeDef). TypesHave (NoStray s.types) t) s.types

    entry-Ensures :
        (e : String × TypeDef)
        → TypesHave (NoStray s.types) e.1
        → Ensures
            (λ (e : String × TypeDef). TypesHave (Leads s.types) e.1)
            (resolve_entry go s.declared_directives s.types e)
    unfolding resolve_entry
    entry-Ensures (key, t) h =
        Ensures-bind (named_type-Ensures s.declared_directives s.types t h)
          λ t' k. holds (type-sorted go laws (Leads s.types) t' k)

    entry_point-Ensures :
        (types : TypeMap) (points : List (OperationType × NamedType)) (e : OperationType × String)
        → Ensures Always (resolve_entry_point go types points e)
    unfolding resolve_entry_point
    entry_point-Ensures types points (op, name) =
        if_some-elim (Ensures Always) (resolve types name) (λ n. holds tt) stopped

  -- If `sort.Slice` only reorders, and what is resolved already, in the fields, arguments and input
  -- fields of the types of the schema and in the arguments of its directives, leads to types of the
  -- schema, none of which has been declared anew since, then `ResolveTypes` returns or raises an error, and if it returns, the type of every such
  -- field, argument and input field, and of every argument of a declared directive, leads to a type
  -- that the schema had, under its name and of its kind.
  pub resolve_types-Leads :
      (s : Schema)
      → Every (λ (_ : String) (t : TypeDef). TypesHave (NoStray s.types) t) s.types
      → Every
          (λ (_ : String) (d : Option DirectiveDecl). DeclaredHas (NoStray s.types) d)
          s.declared_directives
      → Ensures
          (λ (s' : Schema).
            Every (λ (_ : String) (t : TypeDef). TypesHave (Leads s.types) t) s'.types
            × Every
                (λ (_ : String) (d : Option DirectiveDecl). DeclaredHas (Leads s.types) d)
                s'.declared_directives)
          (resolve_types go s)
  unfolding resolve_types
  resolve_types-Leads s h hd =
      let P = Leads s.types in
      Ensures-bind
        (Ensures-both (map_each-Ensures _ _ _ (entry-Ensures s) s.types h)
          (entries-SameNames go s.declared_directives s.types s.types))
        λ types (k, same).
          Ensures-bind
            (map_each-Ensures _ _ _
              (declaration-Leads go laws s.declared_directives s.types types same)
              s.declared_directives hd)
            λ ds kd.
              Ensures-bind
                (fold_each-Ensures Always Always _
                  (λ points e _ _. entry_point-Ensures s types points e) s.entry_points
                  s.entry_point_names tt (Each-Always s.entry_point_names))
                λ points _.
                  Ensures-bind
                    (fold_each-Ensures _ (MapHas P) _ (link_object-Ensures P) types _ k
                      (laws.sort_slice-Each _ _ _ _ (objects_of-Has P types k)))
                    λ types₁ k₁.
                      Ensures-bind
                        (fold_each-Ensures Always (MapHas P) _
                          (λ m e q _. link_union-Ensures P m e q) types₁ _ k₁
                          (Each-Always (unions_of types)))
                        λ types₂ k₂.
                          Ensures-bind
                            (fold_each-Ensures Always (MapHas P) _
                              (λ m e q _. enum-Ensures P ds m e q) types₂ _ k₂
                              (Each-Always (enums_of types)))
                            λ types₃ k₃. holds (k₃, kd)

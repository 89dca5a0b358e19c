-- ===== src/Schema/Definitions/Visit/Places.antt =====
-- About `VisitDirective` of schema/schema.go: the places where directives may stand.
use graphql.Prelude.{
  String, Bool, true, false, ◌≡◌, refl, sym, ◌∙◌, List, [], ◌∷◌, ◌++◌, map, Bool-cases, inl, inr,
  ◌==◌, arith, ap, Option, none, some,
}
use graphql.Prelude.Result
use graphql.Prelude.Result.{Result, ok, raised, out_of_fuel}
use graphql.Schema.Values.Parse.{Directive, DirectiveList, InputValue, get_directive}
use graphql.Schema.Definitions.{
  Field, EnumValue, TypeDef, scalar_def, object_def, interface_def, union_def, enum_def, input_def,
  Schema, DirectiveDecl,
}
use graphql.Schema.Definitions.Alter.{select, has_string, if_some}
use graphql.Schema.Definitions.Visit.{
  Element, schema_element, type_element, field_element, input_element, value_element, for_each,
  when, ◌then_do◌, process, visit_fields, visit_arguments, visit_type, visit_directive,
}

-- A place in a schema where directives may stand.
pub record Place : Type 0 where
  pub named_as : String
  pub directives : DirectiveList
  pub parents : List Element

abbrev place : String → DirectiveList → List Element → Place
place location directives parents = record {
  named_as = location;
  directives = directives;
  parents = parents;
}

unfoldable pub concat_map : {A B : Type 0} → (A → List B) → List A → List B
concat_map f [] = []
concat_map f (a ∷ l) = f a ++ concat_map f l

module _ (schema : Schema) where
  abbrev own_place : String → TypeDef → DirectiveList → Place
  own_place location t directives =
      place location directives (type_element t ∷ schema_element schema ∷ [])

  abbrev field_place : TypeDef → Field → Place
  field_place t f =
      place "FIELD_DEFINITION" f.directives
        (field_element f ∷ type_element t ∷ schema_element schema ∷ [])

  abbrev argument_place : TypeDef → Field → InputValue → Place
  argument_place t f a =
      place "ARGUMENT_DEFINITION" a.directives
        (input_element a ∷ field_element f ∷ type_element t ∷ schema_element schema ∷ [])

  abbrev value_place : TypeDef → EnumValue → Place
  value_place t v =
      place "ENUM_VALUE" v.directives
        (value_element v ∷ type_element t ∷ schema_element schema ∷ [])

  abbrev input_place : TypeDef → InputValue → Place
  input_place t v =
      place "INPUT_FIELD_DEFINITION" v.directives
        (input_element v ∷ type_element t ∷ schema_element schema ∷ [])

  -- The places in a type, and in the schema.
  abbrev pub places_of : TypeDef → List Place
  places_of (scalar_def t) = own_place "SCALAR" (scalar_def t) t.directives ∷ []
  places_of (object_def t) =
      own_place "OBJECT" (object_def t) t.directives
      ∷ (map (field_place (object_def t)) t.fields
          ++ concat_map (λ (f : Field). map (argument_place (object_def t) f) f.args) t.fields)
  places_of (interface_def t) =
      own_place "INTERFACE" (interface_def t) t.directives
      ∷ (map (field_place (interface_def t)) t.fields
          ++ concat_map (λ (f : Field). map (argument_place (interface_def t) f) f.args) t.fields)
  places_of (union_def t) = own_place "UNION" (union_def t) t.directives ∷ []
  places_of (enum_def t) =
      own_place "ENUM" (enum_def t) t.directives ∷ map (value_place (enum_def t)) t.values
  places_of (input_def t) =
      own_place "INPUT_OBJECT" (input_def t) t.directives ∷ map (input_place (input_def t)) t.fields

  abbrev pub places : List Place
  places =
      place "SCHEMA" schema.directives (schema_element schema ∷ [])
      ∷ concat_map (λ (entry : String × TypeDef). places_of entry.1) schema.types

module _ {E S : Type 0} where
  bind_assoc :
      (r : Result E S) (g h : S → Result E S)
      → Result.bind (Result.bind r g) h ≡ Result.bind r (λ s. Result.bind (g s) h)
  bind_assoc (ok s) g h = refl
  bind_assoc (raised e) g h = refl
  bind_assoc out_of_fuel g h = refl

  bind_ok : (r : Result E S) → Result.bind r ok ≡ r
  bind_ok (ok s) = refl
  bind_ok (raised e) = refl
  bind_ok out_of_fuel = refl

  module _ (act : Place → S → Result E S) (keep : Place → Bool) where
    -- The loop over the places that are kept.
    abbrev over : List Place → S → Result E S
    over l = for_each act (select keep l)

    over-append : (l k : List Place) (s : S) → over (l ++ k) s ≡ Result.bind (over l s) (over k)
    unfolding for_each select
    over-append [] k s = refl
    over-append (p ∷ l) k s = elim (Bool-cases (keep p)) [
      | inl e ↦ rw e (
          (λ i. Result.bind (act p s) (λ x. over-append l k x i))
          ∙ sym (bind_assoc (act p s) (over l) (over k)))
      | inr e ↦ rw e (over-append l k s)
    ]

    over-one :
        (p : Place) (l : List Place) (s : S)
        → over (p ∷ l) s ≡ Result.bind (when (keep p) (act p) s) (over l)
    unfolding for_each select
    over-one p l s = elim (Bool-cases (keep p)) [ inl e ↦ rw e refl | inr e ↦ rw e refl ]

    over-map :
        {A : Type 0} (g : A → Place) (flag : Bool) (l : List A) (s : S)
        → ((a : A) → keep (g a) ≡ flag)
        → over (map g l) s ≡ when flag (for_each (λ a. act (g a)) l) s
    unfolding for_each select
    over-map g true [] s h = refl
    over-map g false [] s h = refl
    over-map g true (a ∷ l) s h =
        rw (h a) (λ i. Result.bind (act (g a) s) (λ x. over-map g true l x h i))
    over-map g false (a ∷ l) s h = rw (h a) (over-map g false l s h)

    over-concat_map :
        {A : Type 0} (f : A → List Place) (run : A → S → Result E S) (flag : Bool) (l : List A)
        (s : S)
        → ((a : A) (s : S) → over (f a) s ≡ when flag (run a) s)
        → over (concat_map f l) s ≡ when flag (for_each run l) s
    unfolding for_each select concat_map
    over-concat_map f run true [] s h = refl
    over-concat_map f run false [] s h = refl
    over-concat_map f run true (a ∷ l) s h =
        over-append (f a) (concat_map f l) s
        ∙ rw (h a s) (λ i. Result.bind (run a s) (λ x. over-concat_map f run true l x h i))
    over-concat_map f run false (a ∷ l) s h =
        over-append (f a) (concat_map f l) s ∙ rw (h a s) (over-concat_map f run false l s h)

    -- One part of a type, two, and three, one after another.
    over-single : (p : Place) (s : S) → over (p ∷ []) s ≡ when (keep p) (act p) s
    unfolding for_each select
    over-single p s = elim (Bool-cases (keep p)) [
      | inl e ↦ rw e (bind_ok (act p s))
      | inr e ↦ rw e refl
    ]

    over-two :
        (p : Place) (l : List Place) (second : S → Result E S) (s : S)
        → ((s : S) → over l s ≡ second s)
        → over (p ∷ l) s ≡ (when (keep p) (act p) then_do second) s
    over-two p l second s b =
        over-one p l s ∙ (λ i. Result.bind (when (keep p) (act p) s) (λ x. b x i))

    over-three :
        (p : Place) (l k : List Place) (first second third : S → Result E S) (s : S)
        → ((s : S) → when (keep p) (act p) s ≡ first s)
        → ((s : S) → over l s ≡ second s)
        → ((s : S) → over k s ≡ third s)
        → over (p ∷ (l ++ k)) s ≡ ((first then_do second) then_do third) s
    over-three p l k first second third s a b c =
        over-one p (l ++ k) s
        ∙ (λ i. Result.bind (a s i) (λ x. over-append l k x i))
        ∙ (λ i. Result.bind (first s) (λ x. Result.bind (b x i) (λ y. c y i)))
        ∙ sym (bind_assoc (first s) second third)

abbrev head : {A : Type 0} → List A → Option A
head [] = none
head (a ∷ _) = some a

get_directive-head :
    (name : String) (ds : DirectiveList)
    → get_directive ds name ≡ head (select (λ (d : Directive). d.name == name) ds)
unfolding get_directive select
get_directive-head name [] = refl
get_directive-head name (d ∷ ds) = elim (Bool-cases (d.name == name)) [
  | inl e ↦ ground arith
  | inr e ↦ ground (arith, get_directive-head name ds)
]

module _ {E S : Type 0} (visitor : Directive → List Element → S → Result E S) (decl : DirectiveDecl)
    (schema : Schema) where
  -- What `process` does at a place, and whether the declaration names the place's location.
  abbrev pub process_at : Place → S → Result E S
  process_at p = process visitor decl schema p.directives p.parents

  abbrev pub named_by : Place → Bool
  named_by p = has_string decl.locs p.named_as

  over-type :
      (t : TypeDef) (s : S)
      → over process_at named_by (places_of schema t) s ≡ visit_type visitor decl schema t s
  unfolding visit_type visit_fields visit_arguments
  over-type (scalar_def t) s = over-single process_at named_by _ s
  over-type (union_def t) s = over-single process_at named_by _ s
  over-type (object_def t) s =
      over-three process_at named_by _ _ _ _ _ _ s (λ s. refl)
        (λ s.
          over-map process_at named_by (field_place schema (object_def t))
            (has_string decl.locs "FIELD_DEFINITION") t.fields s (λ a. refl))
        (λ s.
          over-concat_map process_at named_by _ _ (has_string decl.locs "ARGUMENT_DEFINITION")
            t.fields s
            (λ f s.
              over-map process_at named_by (argument_place schema (object_def t) f) _ f.args s
                (λ a. refl)))
  over-type (interface_def t) s =
      over-three process_at named_by _ _ _ _ _ _ s (λ s. refl)
        (λ s.
          over-map process_at named_by (field_place schema (interface_def t))
            (has_string decl.locs "FIELD_DEFINITION") t.fields s (λ a. refl))
        (λ s.
          over-concat_map process_at named_by _ _ (has_string decl.locs "ARGUMENT_DEFINITION")
            t.fields s
            (λ f s.
              over-map process_at named_by (argument_place schema (interface_def t) f) _ f.args s
                (λ a. refl)))
  over-type (enum_def t) s = over-two process_at named_by _ _ _ s (λ s.
      over-map process_at named_by (value_place schema (enum_def t))
        (has_string decl.locs "ENUM_VALUE") t.values s (λ a. refl))
  over-type (input_def t) s = over-two process_at named_by _ _ _ s (λ s.
      over-map process_at named_by (input_place schema (input_def t))
        (has_string decl.locs "INPUT_FIELD_DEFINITION") t.fields s (λ a. refl))

  -- What is to happen at a place: a call for the first directive of the declaration's name there, if
  -- there is one.
  abbrev pub visit_at : Place → S → Result E S
  visit_at p s =
      if_some (head (select (λ (d : Directive). d.name == decl.name) p.directives))
        (λ d. visitor d p.parents s) (ok s)

  process-visit_at : (p : Place) (s : S) → process_at p s ≡ visit_at p s
  unfolding process
  process-visit_at p s =
      ap (λ o. if_some o (λ d. visitor d p.parents s) (ok s))
        (get_directive-head decl.name p.directives)

  each-visit_at : (l : List Place) (s : S) → for_each process_at l s ≡ for_each visit_at l s
  unfolding for_each
  each-visit_at [] s = refl
  each-visit_at (p ∷ l) s =
      rw (process-visit_at p s) (λ i. Result.bind (visit_at p s) (λ x. each-visit_at l x i))

  -- `VisitDirective` calls the visitor, one after another and up to the first error, at exactly those
  -- places of the schema that the declaration of the directive names and where a directive of its
  -- name stands, with the first such directive of the place and what stands above it.
  pub visit_directive-places :
      (s : S)
      → visit_directive visitor decl schema s
        ≡ for_each visit_at (select named_by (places schema)) s
  unfolding visit_directive
  visit_directive-places s =
      sym (
        over-two process_at named_by _ _ _ s (λ s.
          over-concat_map process_at named_by _ _ true schema.types s
            (λ entry s. over-type entry.1 s)))
      ∙ each-visit_at (select named_by (places schema)) s

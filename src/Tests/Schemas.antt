-- ===== src/Tests/Schemas.antt =====
-- The parser of schemas and what follows it, at concrete schemas.
use graphql.Prelude.{
  ℕ, String, Bool, true, List, [], ◌∷◌, Option, none, some, ◌≡◌, ◌≢◌, refl, Bool-cases, inl, inr,
  Each,
}
use graphql.Prelude.Result.{ok, out_of_fuel, Ensures}
use graphql.Lexer.Token.{char}
use graphql.Lexer.Parser.{GoLibrary, Tokens, Description, no_description, describe}
use graphql.Schema.Types.Parse.{NamedType, Kind, SchemaType, list, type_name, named, deepest_type}
use graphql.Schema.Literals.Evaluate.{Numbers}
use graphql.Schema.Values.Parse.{Directive}
use graphql.Schema.Definitions.{
  Field, Object, Scalar, TypeDef, object_def, scalar_def, DirectiveDecl, Schema,
}
use graphql.Schema.Definitions.Maps.{Every}
use graphql.Schema.Definitions.Document.{parse_schema}
use graphql.Schema.Definitions.Alter.Keys.{KeysAgree}
use graphql.Schema.Definitions.Keys.{parse_schema-KeysAgree, parse_schema-ne-out_of_fuel}
use graphql.Schema.Definitions.Resolve.{resolve_types}
use graphql.Schema.Definitions.Resolve.Sound.{TypesHave, DeclaredHas, NoStray, Leads}
use graphql.Schema.Definitions.Resolve.Sorted.{SortLaws}
use graphql.Schema.Definitions.Resolve.Links.{resolve_types-Leads}
use graphql.Schema.Definitions.Alter.{
  select, get_field, has_string, add_desc, add_to_object, drop_from_object,
}
use graphql.Schema.Definitions.Maps.{find}
use graphql.Tests.Data.{go_example, place, token, word, end_token, insert, insertion_sort}

abbrev pub num_example : Numbers
num_example = record {
  Int = ℕ;
  Float = ℕ;
  parse_int = λ s. some 1;
  parse_float = λ s. some 1;
  in_int32 = λ n. true;
}

abbrev pub no_schema : Schema
no_schema = record {
  directives = [];
  entry_points = [];
  types = [];
  declared_directives = [];
  entry_point_names = [];
}

-- `type T {a: [U]} scalar U`
abbrev schema_tokens : Tokens
schema_tokens =
    word "type" 1
    ∷ word "T" 6
    ∷ token (char b'{') "{" 8
    ∷ word "a" 9
    ∷ token (char b':') ":" 10
    ∷ token (char b'[') "[" 12
    ∷ word "U" 13
    ∷ token (char b']') "]" 14
    ∷ token (char b'}') "}" 15
    ∷ word "scalar" 17
    ∷ word "U" 24
    ∷ end_token
    ∷ []

abbrev pub no_desc : ℕ → Description
no_desc column = describe no_description "" (place column)

abbrev pub schema_with : SchemaType → Schema
schema_with type = record no_schema {
  types =
      (
        "T",
        object_def (record {
          name = "T";
          interfaces = [];
          fields =
              record { name = "a"; args = []; type = type; directives = []; desc = no_desc 9 } ∷ [];
          desc = no_desc 1;
          directives = [];
          interface_names = [];
        }),
      )
      ∷ ("U", scalar_def (record { name = "U"; desc = no_desc 17; directives = [] }))
      ∷ [];
}

abbrev pub schema_example : Schema
schema_example = schema_with (list (type_name "U" (place 13)))

parse_schema_test : parse_schema go_example num_example no_schema schema_tokens ≡ ok schema_example
unfolding graphql.Schema.Definitions.Document.parse_schema
    graphql.Schema.Definitions.Document.parse_declarations
    graphql.Schema.Definitions.Document.parse_declaration
    graphql.Schema.Definitions.Document.parse_declaration_of
    graphql.Schema.Definitions.Document.parse_type_def
    graphql.Schema.Definitions.Alter.declare_object graphql.Schema.Definitions.Maps.assign
    graphql.Schema.Definitions.Parse.parse_object_def
    graphql.Schema.Definitions.Parse.parse_interfaces
    graphql.Schema.Definitions.Parse.parse_fields_def
    graphql.Schema.Definitions.Parse.parse_field_def graphql.Schema.Definitions.Parse.parse_args_def
    graphql.Schema.Definitions.Parse.parse_scalar_def
    graphql.Schema.Definitions.Parse.parse_field_block graphql.Schema.Values.Parse.get_directive
    graphql.Schema.Values.Parse.parse_directives graphql.Schema.Values.Parse.parse_directives_loop
    graphql.Lexer.Parser.consume_token graphql.Lexer.Parser.consume_ident
    graphql.Lexer.Parser.consume_ident_with_loc graphql.Lexer.Parser.consume_description
    graphql.Lexer.Parser.peek_keyword graphql.Lexer.Loop.until graphql.Schema.Types.Parse.parse_type
    graphql.Schema.Types.Parse.parse_null_type graphql.Schema.Types.Parse.parse_type_name
    graphql.Schema.Types.Parse.parse_bang
parse_schema_test = refl

parse_schema-ne-out_of_fuel_example :
    parse_schema go_example num_example no_schema schema_tokens ≢ out_of_fuel
parse_schema-ne-out_of_fuel_example =
    parse_schema-ne-out_of_fuel go_example num_example no_schema schema_tokens

parse_schema-KeysAgree_example :
    Ensures
      (λ (s : Schema). KeysAgree s.types)
      (parse_schema go_example num_example no_schema schema_tokens)
parse_schema-KeysAgree_example =
    parse_schema-KeysAgree go_example num_example no_schema schema_tokens tt

resolve_types_test :
    resolve_types go_example schema_example
    ≡ ok (schema_with (list (named (record { kind = Kind.scalar; name = "U" }))))
unfolding graphql.Schema.Definitions.Resolve.resolve_types
    graphql.Schema.Definitions.Resolve.resolve_entry
    graphql.Schema.Definitions.Resolve.resolve_declaration
    graphql.Schema.Definitions.Resolve.map_each graphql.Schema.Definitions.Resolve.fold_each
    graphql.Schema.Definitions.Resolve.resolve_entry_point
    graphql.Schema.Definitions.Resolve.resolve_named_type
    graphql.Schema.Definitions.Resolve.resolve_field
    graphql.Schema.Definitions.Resolve.resolve_input_object
    graphql.Schema.Definitions.Resolve.resolve_directives graphql.Schema.Definitions.Resolve.resolve
    graphql.Schema.Definitions.Resolve.link_object graphql.Schema.Definitions.Resolve.link_union
    graphql.Schema.Definitions.Resolve.resolve_enum graphql.Schema.Definitions.Resolve.objects_of
    graphql.Schema.Definitions.Resolve.unions_of graphql.Schema.Definitions.Resolve.enums_of
    graphql.Schema.Definitions.Maps.find graphql.Schema.Definitions.Maps.assign
    graphql.Schema.Definitions.Sort.sort_type graphql.Schema.Definitions.Sort.sort_fields
    graphql.Schema.Definitions.Sort.sort_field graphql.Schema.Definitions.Sort.sort_directives
    graphql.Schema.Types.Parse.resolve_type
resolve_types_test = refl

insert-Each :
    (A : Type 0) (less : A → A → Bool) (P : A → Type 0) (a : A) (l : List A)
    → P a
    → Each P l
    → Each P (insert A less a l)
insert-Each A less P a [] p h = (p, tt)
insert-Each A less P a (b ∷ l) p h = elim (Bool-cases (less b a)) [
  | inl e ↦ rw e (h.0, insert-Each A less P a l p h.1)
  | inr e ↦ rw e (p, h)
]

insertion_sort-Each :
    (A : Type 0) (less : A → A → Bool) (P : A → Type 0) (l : List A)
    → Each P l
    → Each P (insertion_sort A less l)
insertion_sort-Each A less P [] h = tt
insertion_sort-Each A less P (a ∷ l) h =
    insert-Each A less P a _ h.0 (insertion_sort-Each A less P l h.1)

abbrev laws_example : SortLaws go_example
laws_example = record { sort_slice-Each = insertion_sort-Each }

no_stray_example : NoStray schema_example.types (list (type_name "U" (place 13)))
unfolding deepest_type
no_stray_example n e = cc

-- The same, with `directive @d(a: [U])`.
abbrev declaring : Schema
declaring = record schema_example {
  declared_directives =
      (
        "d",
        some (record {
          name = "d";
          desc = no_desc 20;
          locs = "FIELD" ∷ [];
          args =
              record {
                name = "a";
                name_loc = place 30;
                type = list (type_name "U" (place 33));
                type_loc = place 33;
                default = none;
                desc = no_desc 30;
                loc = place 30;
                directives = [];
              }
              ∷ [];
        }),
      )
      ∷ [];
}

no_stray_argument : NoStray declaring.types (list (type_name "U" (place 33)))
unfolding deepest_type
no_stray_argument n e = cc

resolve_types-Leads_example :
    Ensures
      (λ (s : Schema).
        Every (λ (_ : String) (t : TypeDef). TypesHave (Leads declaring.types) t) s.types
        × Every
            (λ (_ : String) (d : Option DirectiveDecl). DeclaredHas (Leads declaring.types) d)
            s.declared_directives)
      (resolve_types go_example declaring)
resolve_types-Leads_example =
    resolve_types-Leads go_example laws_example declaring (((no_stray_example, tt), tt), (tt, tt))
      ((no_stray_argument, tt), tt)

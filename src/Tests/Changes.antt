-- ===== src/Tests/Changes.antt =====
-- Values of literals, visits and changes of schemas, at concrete ones.
use graphql.Prelude.{ℕ, ◌+◌, String, List, [], ◌∷◌, some, ◌≡◌, refl, ◌==◌}
use graphql.Prelude.Result.{Result, ok, Ensures}
use graphql.Lexer.Token.{int}
use graphql.Schema.Types.Parse.{Kind, type_name, named}
use graphql.Schema.Literals.Parse.{Literal, list_lit, literal, no_literals, basic_lit, variable}
use graphql.Schema.Literals.Evaluate.{evaluate}
use graphql.Schema.Literals.Meaning.{Means, Fails}
use graphql.Schema.Literals.Outcome.{Settled, evaluate-Settled}
use graphql.Schema.Values.Parse.{Directive}
use graphql.Schema.Definitions.{
  Field, Object, Scalar, TypeDef, object_def, scalar_def, DirectiveDecl, Schema,
}
use graphql.Schema.Definitions.Maps.{Every}
use graphql.Schema.Definitions.Alter.{
  select, get_field, has_string, add_desc, add_to_object, drop_from_object,
}
use graphql.Schema.Definitions.Alter.Undo.{Apart, drop-add}
use graphql.Schema.Definitions.Visit.{Element, for_each, visit_directive}
use graphql.Schema.Definitions.Visit.Places.{places, visit_at, named_by, visit_directive-places}
use graphql.Schema.Definitions.Maps.{find}
use graphql.Schema.Definitions.AddMissing.{declared, add_if_missing_type, add_schema}
use graphql.Schema.Definitions.AddMissing.Merged.{or_else_some, find-add_schema}
use graphql.Schema.Definitions.AddMissing.Kept.{Within, add_if_missing_type-Keeps}
use graphql.Tests.Data.{go_example, place}
use graphql.Tests.Schemas.{schema_with, num_example, no_schema, no_desc, schema_example}

-- `[x, "s"]`, without a value for the variable.
abbrev list_example : Literal
list_example =
    list_lit (literal (variable "x" (place 2)) (literal (basic_lit int "7" (place 5)) no_literals))
      (place 1)

evaluate-Settled_example :
    Settled
      (Means go_example num_example [] list_example)
      (Fails go_example num_example [] list_example)
      (evaluate go_example num_example [] list_example)
evaluate-Settled_example = evaluate-Settled go_example num_example [] list_example

-- `directive @live on OBJECT | FIELD_DEFINITION`, with a visitor that counts its calls.
abbrev live : DirectiveDecl
live = record {
  name = "live";
  desc = no_desc 1;
  locs = "OBJECT" ∷ "FIELD_DEFINITION" ∷ [];
  args = [];
}

abbrev count : Directive → List Element → ℕ → Result String ℕ
count d parents n = ok (n + 1)

visit_directive-places_example :
    visit_directive count live schema_example 0
    ≡ for_each
        (visit_at count live schema_example)
        (select (named_by count live schema_example) (places schema_example))
        0
visit_directive-places_example = visit_directive-places count live schema_example 0

-- An object with one field, to which one is added.
abbrev object_with : String → Object
object_with field_name = record {
  name = "T";
  interfaces = [];
  fields =
      record {
        name = field_name;
        args = [];
        type = type_name "U" (place 1);
        directives = [];
        desc = no_desc 1;
      }
      ∷ [];
  desc = no_desc 1;
  directives = [];
  interface_names = "I" ∷ [];
}

abbrev added : Object
added = record (object_with "b") { interface_names = "J" ∷ [] }

added-Apart : Apart (object_with "a") added
unfolding get_field graphql.Schema.Values.Parse.get_directive has_string
added-Apart = (tt, (refl, tt), tt, (refl, tt))

drop-add_example :
    drop_from_object (add_to_object (object_with "a") added) added
    ≡ record (object_with "a") { desc = add_desc (object_with "a").desc added.desc }
drop-add_example = drop-add (object_with "a") added added-Apart

-- The schema with its types resolved, and its object.
abbrev pub resolved_example : Schema
resolved_example = schema_with (named (record { kind = Kind.scalar; name = "U" }))

abbrev object_t : TypeDef
object_t = object_def (record {
  name = "T";
  interfaces = [];
  fields =
      record {
        name = "a";
        args = [];
        type = named (record { kind = Kind.scalar; name = "U" });
        directives = [];
        desc = no_desc 9;
      }
      ∷ [];
  desc = no_desc 1;
  directives = [];
  interface_names = [];
})

found_t : find ◌==◌ resolved_example.types "T" ≡ some object_t
unfolding find
found_t = refl

add_if_missing_type_test :
    add_if_missing_type resolved_example 3 object_t no_schema ≡ ok resolved_example
unfolding graphql.Schema.Definitions.AddMissing.add_if_missing_type
    graphql.Schema.Definitions.AddMissing.add_parts
    graphql.Schema.Definitions.AddMissing.add_directives
    graphql.Schema.Definitions.AddMissing.add_field graphql.Schema.Definitions.AddMissing.add_type
    graphql.Schema.Definitions.AddMissing.add_named graphql.Schema.Definitions.Maps.find
    graphql.Schema.Definitions.Maps.assign graphql.Schema.Definitions.Visit.for_each
add_if_missing_type_test = refl

add_if_missing_type-Keeps_example :
    Ensures
      (λ (to' : Schema).
        Within no_schema.types to'.types × ((u : TypeDef) × (find ◌==◌ to'.types "T" ≡ some u)))
      (add_if_missing_type resolved_example 3 object_t no_schema)
add_if_missing_type-Keeps_example =
    add_if_missing_type-Keeps resolved_example (refl, (refl, tt)) "T" object_t no_schema found_t

find-add_schema_example :
    (find ◌==◌ (add_schema resolved_example no_schema).types "T"
      ≡ or_else_some (find ◌==◌ no_schema.types "T") (find ◌==◌ resolved_example.types "T"))
    × (declared (add_schema resolved_example no_schema).declared_directives "T"
        ≡ or_else_some
            (declared no_schema.declared_directives "T")
            (declared resolved_example.declared_directives "T"))
find-add_schema_example = find-add_schema resolved_example no_schema "T"

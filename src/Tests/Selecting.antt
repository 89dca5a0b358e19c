-- ===== src/Tests/Selecting.antt =====
-- `Apply` at a concrete query.
use graphql.Prelude.{String, Bool, [], ◌∷◌, Option, none, some, ◌≡◌, refl}
use graphql.Prelude.Result.{Ensures, ok}
use graphql.Lexer.Parser.{no_location}
use graphql.Schema.Types.Parse.{NamedType, Kind, SchemaType, named, list, type_name}
use graphql.Schema.Literals.Parse.{basic_lit}
use graphql.Lexer.Token.{ident}
use graphql.Schema.Values.Parse.{DirectiveList}
use graphql.Schema.Query.Parse.{
  Selections, field_selection, inline_fragment, no_selections, selection, FieldHead, no_type_name,
}
use graphql.Validation.Depth.Spec.{Expands, nothing, a_field, inline}
use graphql.Exec.Selection.{apply, skip_by_directive}
use graphql.Exec.Selection.Spec.{AllPicked}
use graphql.Exec.Selection.Sound.{apply-AllPicked}
use graphql.Tests.Data.{go_example, place}
use graphql.Tests.Schemas.{num_example, schema_example, no_desc}

abbrev field_head : String → DirectiveList → FieldHead
field_head name directives = record {
  alias = name;
  alias_loc = place 1;
  name = name;
  name_loc = no_location;
  arguments = [];
  directives = directives;
  selection_set_loc = no_location;
}

-- `@skip(if: true)`
abbrev skip_true : DirectiveList
skip_true =
    record {
      name = "skip";
      name_loc = place 3;
      args =
          record { name = "if"; name_loc = place 4; value = basic_lit ident "true" (place 5) } ∷ [];
    }
    ∷ []

-- `... {a} a @skip(if: true)`
abbrev query_example : Selections
query_example =
    selection
      (inline_fragment no_type_name []
        (selection (field_selection (field_head "a" []) no_selections) no_selections) (place 1))
      (selection (field_selection (field_head "a" skip_true) no_selections) no_selections)

abbrev type_t : NamedType
type_t = record { kind = Kind.object; name = "T" }

abbrev no_cast : Option (Option NamedType → Bool)
no_cast = none

query-Expands : Expands [] query_example 2
query-Expands = inline (a_field nothing nothing) (a_field nothing nothing)

apply_test :
    apply go_example num_example [] schema_example.types [] no_cast 3
      (some (named type_t))
      query_example
    ≡ ok (
      record {
        on_type = type_t;
        head = field_head "a" [];
        field = record {
          name = "a";
          args = [];
          type = list (type_name "U" (place 13));
          directives = [];
          desc = no_desc 9;
        };
      }
          ∷ [],
      [],
    )
unfolding graphql.Exec.Selection.apply graphql.Exec.Selection.apply_selections
    graphql.Exec.Selection.apply_selection graphql.Exec.Selection.apply_fragment
    graphql.Exec.Selection.choose_field graphql.Exec.Selection.fields_of
    graphql.Exec.Selection.skip_by_directive graphql.Exec.Selection.evaluate_if
    graphql.Schema.Values.Parse.get_directive graphql.Schema.Values.Parse.get_argument
    graphql.Schema.Literals.Evaluate.evaluate graphql.Schema.Definitions.Maps.find
    graphql.Schema.Definitions.Alter.get_field graphql.Schema.Types.Parse.deepest_type
apply_test = refl

apply-AllPicked_example :
    Ensures
      (AllPicked go_example num_example [] schema_example.types [] no_cast
        (some (named type_t))
        query_example)
      (apply go_example num_example [] schema_example.types [] no_cast 3
        (some (named type_t))
        query_example)
unfolding graphql.Schema.Types.Parse.deepest_type
apply-AllPicked_example =
    apply-AllPicked go_example num_example [] schema_example.types [] no_cast (some (named type_t))
      query_example 2 query-Expands

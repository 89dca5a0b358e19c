-- ===== src/Tests/Validating.antt =====
-- The rules of the validation at concrete values and directives.
use graphql.Prelude.{String, [], ◌∷◌, none, ◌≡◌, refl, ◌↔◌, Each, ℕ, List, some, true}
use graphql.Prelude.Result.{Ensures, ok}
use graphql.Lexer.Token.{int}
use graphql.Schema.Types.Parse.{Kind, SchemaType, list, non_null, named}
use graphql.Schema.Literals.Parse.{
  Literal, basic_lit, list_lit, object_lit, no_literals, literal, no_fields, field,
}
use graphql.Schema.Values.Parse.{Directive, InputValue}
use graphql.Schema.Definitions.{TypeDef, scalar_def, input_def, DirectiveDecl, Schema}
use graphql.Schema.Definitions.Alter.{TypeMap}
use graphql.Validation.Errors.{in_field, missing_value}
use graphql.Validation.Values.{valid, invalid, check_value}
use graphql.Validation.Values.Spec.{HasType}
use graphql.Validation.Values.Valid.{check_value-HasType}
use graphql.Validation.Context.{Context}
use graphql.Validation.Arguments.{validate_directives}
use graphql.Validation.Arguments.Clean.{Clean}
use graphql.Validation.Arguments.Names.{NoRepeats}
use graphql.Validation.Arguments.Fit.{DirectiveFits, validate_directives-Fit}
use graphql.Schema.Query.Parse.{
  Selections, selection, no_selections, fragment_spread, FragmentDecl, no_type_name,
}
use graphql.Validation.Errors.{fragment_cycle}
use graphql.Validation.Depth.{get_fragment}
use graphql.Validation.Fragments.{mark_used_fragments, Search, detect_fragment_cycle}
use graphql.Validation.Fragments.Reach.{Reached}
use graphql.Validation.Fragments.Used.{mark_used_fragments-Reached}
use graphql.Validation.Fragments.Cycle.{TellsCircle, detect_fragment_cycle-TellsCircle}
use graphql.Tests.Data.{place}
use graphql.Validation.Compatible.{compatible, MayBe, compatible_iff}
use graphql.Tests.Schemas.{num_example, no_schema, no_desc}
use graphql.Tests.Changes.{resolved_example}

abbrev int_type : SchemaType
int_type = named (record { kind = Kind.scalar; name = "Int" })

abbrev input_type : SchemaType
input_type = named (record { kind = Kind.input_object; name = "Point" })

abbrev input_value : String → SchemaType → InputValue
input_value name type = record {
  loc = place 1;
  name = name;
  name_loc = place 1;
  type = type;
  type_loc = place 1;
  default = none;
  desc = no_desc 1;
  directives = [];
}

-- `scalar Int` and `input Point {x: Int! y: [Int]}`.
abbrev types_example : TypeMap
types_example =
    ("Int", scalar_def (record { name = "Int"; desc = no_desc 1; directives = [] }))
    ∷ (
      "Point",
      input_def (record {
        name = "Point";
        desc = no_desc 1;
        fields = input_value "x" (non_null int_type) ∷ input_value "y" (list int_type) ∷ [];
        directives = [];
      }),
    )
    ∷ []

abbrev seven : Literal
seven = basic_lit int "7" (place 4)

-- `{x: 7, y: [7]}`
abbrev point : Literal
point =
    object_lit
      (field "x" (place 2) seven
        (field "y" (place 6) (list_lit (literal seven no_literals) (place 9)) no_fields))
      (place 1)

check_value_test : (check_value types_example num_example [] point input_type).verdict ≡ valid
unfolding graphql.Validation.Values.check_value graphql.Validation.Values.check_basic
    graphql.Validation.Values.validate_scalar_lit graphql.Validation.Values.look_up_type
    graphql.Validation.Values.check_missing graphql.Validation.Values.has_field
    graphql.Schema.Definitions.Maps.find graphql.Schema.Values.Parse.get_input_value
check_value_test = refl

check_value_test_missing :
    (check_value types_example num_example [] (object_lit no_fields (place 1)) input_type).verdict
    ≡ invalid (in_field "x" (missing_value (non_null int_type)))
unfolding graphql.Validation.Values.check_value graphql.Validation.Values.check_basic
    graphql.Validation.Values.validate_scalar_lit graphql.Validation.Values.look_up_type
    graphql.Validation.Values.check_missing graphql.Validation.Values.has_field
    graphql.Schema.Definitions.Maps.find graphql.Schema.Values.Parse.get_input_value
check_value_test_missing = refl

check_value-HasType_example :
    ((check_value types_example num_example [] point input_type).verdict ≡ valid)
    ↔ HasType num_example types_example point input_type
check_value-HasType_example = check_value-HasType num_example types_example [] point input_type

-- `directive @limit(n: Int!) on FIELD`
abbrev limit_schema : Schema
limit_schema = record no_schema {
  types = types_example;
  declared_directives =
      (
        "limit",
        some (record {
          name = "limit";
          desc = no_desc 1;
          locs = "FIELD" ∷ [];
          args = input_value "n" (non_null int_type) ∷ [];
        }),
      )
      ∷ [];
}

-- `@limit(n: 7)`
abbrev limit_seven : Directive
limit_seven = record {
  name = "limit";
  name_loc = place 1;
  args = record { name = "n"; name_loc = place 2; value = seven } ∷ [];
}

abbrev no_errors : Context
no_errors = record { errs = []; op_errs = []; used_vars = [] }

validate_directives_test :
    validate_directives num_example limit_schema [] "FIELD" (limit_seven ∷ []) no_errors
    ≡ ok no_errors
unfolding graphql.Validation.Values.check_value graphql.Validation.Values.check_basic
    graphql.Validation.Values.validate_scalar_lit graphql.Validation.Values.look_up_type
    graphql.Validation.Values.check_missing graphql.Validation.Values.has_field
    graphql.Schema.Definitions.Maps.find graphql.Schema.Values.Parse.get_input_value
    graphql.Validation.Arguments.validate_directives
    graphql.Validation.Arguments.validate_directives_loop
    graphql.Validation.Arguments.validate_directive
    graphql.Validation.Arguments.validate_argument_literals
    graphql.Validation.Arguments.validate_declared
    graphql.Validation.Arguments.validate_argument_types graphql.Validation.Arguments.validate_given
    graphql.Validation.Arguments.validate_argument graphql.Validation.Arguments.report_value
    graphql.Validation.Arguments.validate_required graphql.Validation.Context.validate_name
    graphql.Validation.Context.validate_literal graphql.Schema.Values.Parse.get_argument
    graphql.Schema.Definitions.Alter.has_string graphql.Schema.Definitions.Maps.assign
validate_directives_test = refl

validate_directives-Fit_example :
    Ensures
      (Clean no_errors (
        NoRepeats ("limit" ∷ [])
        × Each (DirectiveFits num_example limit_schema "FIELD") (limit_seven ∷ [])))
      (validate_directives num_example limit_schema [] "FIELD" (limit_seven ∷ []) no_errors)
validate_directives-Fit_example =
    validate_directives-Fit num_example limit_schema [] "FIELD" (limit_seven ∷ []) no_errors

-- `fragment F on T {...G}` and `fragment G on T {...F}`.
abbrev spread_of : String → ℕ → Selections
spread_of name column =
    selection (fragment_spread name (place column) [] (place column)) no_selections

abbrev fragment : String → Selections → FragmentDecl
fragment name sels = record {
  on = no_type_name;
  selections = sels;
  name = name;
  name_loc = place 1;
  directives = [];
  loc = place 1;
}

abbrev fragment_f : FragmentDecl
fragment_f = fragment "F" (spread_of "G" 10)

abbrev circle_example : List FragmentDecl
circle_example = fragment_f ∷ fragment "G" (spread_of "F" 20) ∷ []

mark_used_fragments_test :
    mark_used_fragments circle_example 3 (spread_of "F" 30) [] ≡ ok ("G" ∷ "F" ∷ [])
unfolding graphql.Validation.Fragments.mark_used_fragments graphql.Validation.Fragments.mark_used
    graphql.Validation.Depth.get_fragment graphql.Schema.Definitions.Alter.has_string
mark_used_fragments_test = refl

mark_used_fragments-Reached_example :
    Ensures
      (λ used. Each (Reached circle_example (spread_of "F" 30)) used)
      (mark_used_fragments circle_example 3 (spread_of "F" 30) [])
mark_used_fragments-Reached_example = mark_used_fragments-Reached circle_example (spread_of "F" 30)

abbrev no_search : Search
no_search = record { visited = []; errs = [] }

detect_fragment_cycle_test :
    detect_fragment_cycle circle_example 3 [] (("F", 0) ∷ []) (spread_of "G" 10) no_search
    ≡ ok (record {
      visited = "G" ∷ [];
      errs =
          record { locations = place 10 ∷ place 20 ∷ []; problem = fragment_cycle "F" ("G" ∷ []) }
          ∷ [];
    })
unfolding graphql.Validation.Fragments.detect_fragment_cycle
    graphql.Validation.Fragments.detect_selections graphql.Validation.Fragments.detect_spread
    graphql.Validation.Fragments.drop graphql.Validation.Fragments.but_last
    graphql.Validation.Depth.get_fragment graphql.Schema.Definitions.Alter.has_string
    graphql.Schema.Definitions.Maps.find graphql.Schema.Definitions.Maps.assign
detect_fragment_cycle_test = refl

found_f : get_fragment circle_example "F" ≡ some fragment_f
unfolding graphql.Validation.Depth.get_fragment
found_f = refl

detect_fragment_cycle-TellsCircle_example :
    Ensures
      (λ (s' : Search). Each (TellsCircle circle_example) s'.errs)
      (detect_fragment_cycle circle_example 3 [] (("F", 0) ∷ []) (spread_of "G" 10) no_search)
detect_fragment_cycle-TellsCircle_example =
    detect_fragment_cycle-TellsCircle circle_example fragment_f no_search found_f tt

abbrev object_type_t : SchemaType
object_type_t = named (record { kind = Kind.object; name = "T" })

compatible_iff_example :
    (compatible resolved_example.types (some object_type_t) (some object_type_t) ≡ true) ↔ (
      (n : String) × MayBe resolved_example.types (some object_type_t) n
      × MayBe resolved_example.types (some object_type_t) n)
compatible_iff_example =
    compatible_iff resolved_example.types (some object_type_t) (some object_type_t)

-- ===== src/Tests/Checking.antt =====
-- The checks of the validation at concrete inputs.
use graphql.Prelude.{ℕ, String, ◌≡◌, refl, List, [], ◌∷◌, true, ◌↔◌}
use graphql.Prelude.Result.{out_of_fuel}
use graphql.Schema.Types.Parse.{SchemaType, list, non_null, named, scalar, object}
use graphql.Schema.Query.Parse.{
  FieldHead, Selections, FragmentDecl, selection, no_selections, field_selection, fragment_spread,
}
use graphql.Lexer.Parser.{no_location}
use graphql.Validation.Suggestion.{levenshtein_distance, max}
use graphql.Validation.Types.{types_compatible, type_can_be_used_as}
use graphql.Validation.Types.Shape.{shape, types_compatible_iff}
use graphql.Validation.Types.Usable.{Serves, type_can_be_used_as_iff}
use graphql.Validation.Depth.{validate_max_depth}
use graphql.Validation.Depth.Spec.{a_field, known, nothing}
use graphql.Validation.Depth.Answers.{Answers}
use graphql.Validation.Depth.Correct.{TooDeep, validate_max_depth-TooDeep}
use graphql.Validation.Depth.Cycle.{validate_max_depth_cycle}
use graphql.Qerrors.{before}
use graphql.Qerrors.Order.{Ordered, before-Ordered, before_trans}
use graphql.Tests.Data.{place}

-- "saturday" and "sunday".
abbrev saturday : List ℕ
saturday = 115 ∷ 97 ∷ 116 ∷ 117 ∷ 114 ∷ 100 ∷ 97 ∷ 121 ∷ []

abbrev sunday : List ℕ
sunday = 115 ∷ 117 ∷ 110 ∷ 100 ∷ 97 ∷ 121 ∷ []

levenshtein_distance_test : levenshtein_distance saturday sunday ≡ 3
unfolding levenshtein_distance graphql.Validation.Suggestion.rounds
    graphql.Validation.Suggestion.round graphql.Validation.Suggestion.update
    graphql.Validation.Suggestion.min graphql.Validation.Suggestion.max
    graphql.Validation.Suggestion.count_from graphql.Validation.Suggestion.last_or
levenshtein_distance_test = refl

abbrev int_type : SchemaType
int_type = named (record { kind = scalar; name = "Int" })

abbrev user_type : SchemaType
user_type = named (record { kind = object; name = "User" })

types_compatible_iff_example :
    (types_compatible (list int_type) (list user_type) ≡ true)
    ↔ (shape (list int_type) ≡ shape (list user_type))
types_compatible_iff_example = types_compatible_iff (list int_type) (list user_type)

type_can_be_used_as_iff_example :
    (type_can_be_used_as (non_null (list (non_null int_type))) (list int_type) ≡ true)
    ↔ Serves (non_null (list (non_null int_type))) (list int_type)
type_can_be_used_as_iff_example =
    type_can_be_used_as_iff (non_null (list (non_null int_type))) (list int_type)

abbrev head : String → FieldHead
head name = record {
  alias = name;
  alias_loc = place 1;
  name = name;
  name_loc = no_location;
  arguments = [];
  directives = [];
  selection_set_loc = no_location;
}

-- `{a}`, and `{a ...F}` with a fragment of `{a}`.
abbrev leaves : Selections
leaves = selection (field_selection (head "a") no_selections) no_selections

abbrev spreads : Selections
spreads =
    selection (field_selection (head "a") no_selections)
      (selection (fragment_spread "F" (place 4) [] (place 3)) no_selections)

abbrev fragment_of : Selections → FragmentDecl
fragment_of ss = record {
  on = record { name = "T"; name_loc = place 1 };
  selections = ss;
  name = "F";
  name_loc = place 1;
  directives = [];
  loc = place 1;
}

validate_max_depth-TooDeep_example :
    Answers
      (TooDeep (fragment_of leaves ∷ []) 3 spreads 4)
      (validate_max_depth (fragment_of leaves ∷ []) 3 3 spreads 4 [])
unfolding graphql.Validation.Depth.get_fragment
validate_max_depth-TooDeep_example =
    validate_max_depth-TooDeep (fragment_of leaves ∷ []) 3 spreads 2 4 [] refl
      (a_field nothing (known refl (a_field nothing nothing) nothing))

-- `fragment F on T {...F}`
abbrev cycle : Selections
cycle = selection (fragment_spread "F" (place 4) [] (place 3)) no_selections

validate_max_depth_cycle_example :
    validate_max_depth (fragment_of cycle ∷ []) 8 100 cycle 1 [] ≡ out_of_fuel
unfolding graphql.Validation.Depth.get_fragment
validate_max_depth_cycle_example =
    validate_max_depth_cycle (fragment_of cycle ∷ []) 8 (fragment_of cycle) "F" (place 4) (place 3)
      [] no_selections refl refl refl 100 1 []

before-Ordered_example : Ordered (place 3) (record { line = 2; column = 1 })
before-Ordered_example = before-Ordered (place 3) (record { line = 2; column = 1 })

before_trans_example : before (place 3) (record { line = 2; column = 1 }) ≡ true
unfolding before
before_trans_example = before_trans (place 3) (place 7) (record { line = 2; column = 1 }) refl refl

-- "sun"
abbrev sun : List ℕ
sun = 115 ∷ 117 ∷ 110 ∷ []

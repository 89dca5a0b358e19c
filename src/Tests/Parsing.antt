-- ===== src/Tests/Parsing.antt =====
-- The lexer and the parsers at concrete tokens.
use graphql.Prelude.{◌≡◌, refl, [], ◌∷◌, ◌++◌, false, true, arith}
use graphql.Prelude.Result.{ok, Ensures}
use graphql.Lexer.Token.{int, char, same_kind}
use graphql.Lexer.Consume
use graphql.Lexer.Consume.{Lexer, ahead, consume, ahead-consume, peek-consume_ne_comma, comma}
use graphql.Lexer.Parser.{Tokens, no_location}
use graphql.Schema.Types.Parse.{SchemaType, list, non_null, type_name, parse_type}
use graphql.Prelude.{String, Option, none, some, ◌==◌, if◌then◌else◌}
use graphql.Schema.Types.Parse.{NamedType, object, resolve_type}
use graphql.Schema.Types.Resolve.{Resolution, resolve_type-Resolution}
use graphql.Schema.Types.Grammar.{SpellsType, nullable, bang, name, brackets}
use graphql.Schema.Types.Sound.{ReadsType, parse_type-Ensures}
use graphql.Schema.Types.Complete.{parse_type-SpellsType}
use graphql.Schema.Literals.Parse.{
  Literal, Fields, object_lit, basic_lit, no_fields, field, parse_literal,
}
use graphql.Schema.Literals.Grammar
use graphql.Schema.Literals.Grammar.{SpellsLiteral, basic, negative, fields}
use graphql.Schema.Literals.Sound.{ReadsLiteral, parse_literal-Ensures}
use graphql.Schema.Literals.Complete.{parse_literal-SpellsLiteral}
use graphql.Schema.Values.Sound.{ReadsSome}
use graphql.Schema.Query.Parse.{
  parse, parse_selection, OperationType, query, selection, no_selections, field_selection,
  fragment_spread,
}
use graphql.Schema.Query.Grammar.{SpellsSelection}
use graphql.Schema.Query.Sound.Selections.{parse_selection-Ensures}
use graphql.Schema.Query.Sound.Document.{SpellsParsed, parse-Ensures}
use graphql.Tests.Data.{
  go_example, place, token, word, end_token, list_type_tokens, object_tokens, set_tokens,
  spread_tokens,
}

-- A lexer at `a` with `, ,b` still to be scanned.
abbrev lexer_example : Lexer
lexer_example = record {
  sc = record {
    tokens = token (char b',') "," 2 ∷ token (char b',') "," 4 ∷ word "b" 5 ∷ [];
    end = end_token;
  };
  next = word "a" 1;
  skip_descriptions = false;
}

consume_test : (consume lexer_example).next ≡ word "b" 5
unfolding consume
consume_test = refl

ahead-consume_example : ahead lexer_example ≡ word "a" 1 ∷ ahead (consume lexer_example)
ahead-consume_example = ahead-consume lexer_example (refl, (refl, (refl, tt))) refl refl

peek-consume_ne_comma_example : same_kind (Consume.peek (consume lexer_example)) comma ≡ false
peek-consume_ne_comma_example = peek-consume_ne_comma lexer_example refl

abbrev list_type : SchemaType
list_type = list (non_null (type_name "T" (place 2)))

parse_type_test : parse_type 5 (list_type_tokens ++ end_token ∷ []) ≡ ok (list_type, end_token ∷ [])
unfolding parse_type graphql.Schema.Types.Parse.parse_null_type graphql.Lexer.Parser.consume_token
    graphql.Schema.Types.Parse.parse_type_name graphql.Lexer.Parser.consume_ident_with_loc
    graphql.Schema.Types.Parse.parse_bang
parse_type_test = refl

parse_type-Ensures_example : Ensures (ReadsType list_type_tokens) (parse_type 5 list_type_tokens)
parse_type-Ensures_example = parse_type-Ensures 5 list_type_tokens (omega arith)

list_type_tokens-SpellsType : SpellsType list_type list_type_tokens
list_type_tokens-SpellsType =
    nullable (brackets _ _ (bang _ (name (word "T" 2) refl refl) refl refl) refl refl refl)

parse_type-SpellsType_example :
    parse_type 5 (list_type_tokens ++ end_token ∷ []) ≡ ok (list_type, end_token ∷ [])
parse_type-SpellsType_example =
    parse_type-SpellsType 5 (end_token ∷ []) list_type_tokens-SpellsType (omega arith) refl

-- A resolver that knows the object type "T".
abbrev resolver_example : String → Option NamedType
resolver_example x = if x == "T" then some (record { kind = object; name = x }) else none

resolve_type-Resolution_example :
    Resolution resolver_example list_type (resolve_type resolver_example list_type)
resolve_type-Resolution_example = resolve_type-Resolution resolver_example list_type

-- The fields stand in the order of their names.
abbrev object_literal : Literal
object_literal =
    object_lit
      (field "a" (place 8) (basic_lit int "-1" (place 11))
        (field "b" (place 2) (basic_lit int "2" (place 5)) no_fields))
      (place 1)

parse_literal_test : parse_literal go_example 10 true object_tokens ≡ ok (object_literal, [])
unfolding parse_literal graphql.Schema.Literals.Parse.parse_object
    graphql.Lexer.Parser.consume_token graphql.Lexer.Loop.until
    graphql.Schema.Literals.Parse.parse_field graphql.Lexer.Parser.consume_ident_with_loc
    graphql.Schema.Literals.Parse.parse_basic graphql.Schema.Literals.Parse.consume_basic_lit
    graphql.Lexer.Parser.consume_literal graphql.Schema.Literals.Parse.parse_negative
parse_literal_test = refl

parse_literal-Ensures_example :
    Ensures
      (ReadsLiteral go_example true object_tokens)
      (parse_literal go_example 10 true object_tokens)
parse_literal-Ensures_example = parse_literal-Ensures go_example 10 true object_tokens (omega arith)

object_tokens-SpellsLiteral : SpellsLiteral go_example true object_literal object_tokens
object_tokens-SpellsLiteral =
    fields {fs = _} _ _
      (Grammar.field (word "b" 2) _ refl refl (basic (token int "2" 5) refl refl refl)
        (Grammar.field (word "a" 8) _ refl refl
          (negative (token (char b'-') "-" 11) (token int "1" 12) refl refl refl) Grammar.no_fields
          refl)
        refl)
      refl refl refl

parse_literal-SpellsLiteral_example :
    parse_literal go_example 10 true (object_tokens ++ end_token ∷ [])
    ≡ ok (object_literal, end_token ∷ [])
parse_literal-SpellsLiteral_example =
    parse_literal-SpellsLiteral go_example true 10 (end_token ∷ []) object_tokens-SpellsLiteral
      (omega arith)

parse_selection-Ensures_example :
    Ensures
      (ReadsSome (SpellsSelection go_example) spread_tokens)
      (parse_selection go_example 11 spread_tokens)
parse_selection-Ensures_example = parse_selection-Ensures go_example 11 spread_tokens (omega arith)

parse_test :
    parse go_example true set_tokens
    ≡ ok (record {
      operations =
          record {
            type = query;
            name = "";
            name_loc = no_location;
            vars = [];
            selections =
                selection
                  (field_selection
                    (record {
                      alias = "a";
                      alias_loc = place 2;
                      name = "a";
                      name_loc = no_location;
                      arguments = [];
                      directives = [];
                      selection_set_loc = no_location;
                    })
                    no_selections)
                  (selection (fragment_spread "F" (place 7) [] (place 4)) no_selections);
            directives = [];
            loc = place 1;
          }
          ∷ [];
      fragments = [];
    })
unfolding parse graphql.Schema.Query.Parse.parse_document
    graphql.Schema.Query.Parse.parse_definition graphql.Schema.Query.Parse.parse_anonymous
    graphql.Schema.Query.Parse.parse_selection_set graphql.Schema.Query.Parse.parse_field
    graphql.Schema.Query.Parse.parse_name graphql.Schema.Query.Parse.parse_optional_set
    graphql.Schema.Query.Parse.parse_spread graphql.Schema.Query.Parse.parse_spread_end
    graphql.Schema.Query.Parse.parse_named_spread graphql.Schema.Query.Parse.parse_fragment_spread
    parse_selection graphql.Schema.Values.Parse.parse_optional_arguments
    graphql.Schema.Values.Parse.parse_directives graphql.Schema.Values.Parse.parse_directives_loop
    graphql.Lexer.Loop.until graphql.Lexer.Parser.consume_token
    graphql.Lexer.Parser.consume_ident_with_loc
parse_test = refl

parse-Ensures_example :
    Ensures (SpellsParsed go_example true set_tokens) (parse go_example true set_tokens)
parse-Ensures_example = parse-Ensures go_example true set_tokens

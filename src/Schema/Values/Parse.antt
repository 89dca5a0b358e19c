-- ===== src/Schema/Values/Parse.antt =====
-- schema/values.go: `InputValue`, `Argument` and their parsers; schema/directive.go: `Directive`
-- and `ParseDirectives`.
use graphql.Prelude.{
  ℕ, zero, suc, ◌-◌, String, Bool, true, false, List, [], ◌∷◌, Option, none, some, if◌then◌else◌,
  ◌==◌,
}
use graphql.Prelude.Result.{ok, out_of_fuel}
use graphql.Qerrors.{Location}
use graphql.Lexer.Token.{char}
use graphql.Lexer.Parser.{
  Parser, pure, ◌>>=◌, ◌>>◌, run, at, location, consume_token, consume_ident_with_loc,
  consume_description, located, GoLibrary, Description,
}
use graphql.Lexer.Loop.{until}
use graphql.Schema.Types.Parse.{SchemaType, parse_type}
use graphql.Schema.Literals.Parse.{Literal, parse_literal}

-- `Argument`, and `ArgumentList`.
pub record Argument : Type 0 where
  pub name : String
  pub name_loc : Location
  pub value : Literal

abbrev pub ArgumentList : Type 0
ArgumentList = List Argument

-- `Directive`, and `DirectiveList`.
pub record Directive : Type 0 where
  pub name : String
  pub name_loc : Location
  pub args : ArgumentList

abbrev pub DirectiveList : Type 0
DirectiveList = List Directive

-- `InputValue`, and `InputValueList`.
pub record InputValue : Type 0 where
  pub loc : Location
  pub name : String
  pub name_loc : Location
  pub type : SchemaType
  pub type_loc : Location
  pub default : Option Literal
  pub desc : Description
  pub directives : DirectiveList

abbrev pub InputValueList : Type 0
InputValueList = List InputValue

-- `ArgumentList.Get`.
unfoldable pub get_argument : ArgumentList → String → Option Literal
get_argument [] name = none
get_argument (arg ∷ l) name = if arg.name == name then some arg.value else get_argument l name

-- `InputValueList.Get`.
unfoldable pub get_input_value : InputValueList → String → Option InputValue
get_input_value [] name = none
get_input_value (v ∷ l) name = if v.name == name then some v else get_input_value l name

-- `DirectiveList.Get`.
unfoldable pub get_directive : DirectiveList → String → Option Directive
get_directive [] name = none
get_directive (d ∷ l) name = if d.name == name then some d else get_directive l name

module _ (go : GoLibrary) where
  -- One round of the loop in `ParseArguments`.
  unfoldable pub parse_argument : ℕ → Parser Argument
  parse_argument f ts = run ts do
    (name, loc) ← consume_ident_with_loc
    consume_token (char b':')
    v ← parse_literal go f false
    pure (record { name = name; name_loc = loc; value = v })

  -- `ParseArguments`.
  unfoldable pub parse_arguments : ℕ → Parser ArgumentList
  parse_arguments f ts = run ts do
    consume_token (char b'(')
    args ← until f (char b')') (parse_argument f)
    consume_token (char b')')
    pure args

  -- `ParseArguments` where there is an opening parenthesis, no arguments where there is none.
  unfoldable pub parse_optional_arguments : ℕ → Parser ArgumentList
  parse_optional_arguments f ts = if at (char b'(') ts then parse_arguments f ts else ok ([], ts)

  -- One round of the loop in `ParseDirectives`. Columns count from 1, and the token behind "@"
  -- stands at column 1 at least.
  unfoldable pub parse_directive : ℕ → Parser Directive
  parse_directive f ts = run ts do
    consume_token (char b'@')
    (name, loc) ← consume_ident_with_loc
    args ← parse_optional_arguments f
    pure (record { name = name; name_loc = record loc { column = loc.column - 1 }; args = args })

  -- `ParseDirectives`: the loop, whose rounds `n` bounds.
  unfoldable pub parse_directives_loop : ℕ → ℕ → Parser DirectiveList
  parse_directives_loop f zero ts = out_of_fuel
  parse_directives_loop f (suc n) ts =
      let more = (run ts do d ← parse_directive f; l ← parse_directives_loop f n; pure (d ∷ l)) in
      if at (char b'@') ts then more else ok ([], ts)

  unfoldable pub parse_directives : ℕ → Parser DirectiveList
  unfolding parse_directives_loop
  parse_directives f = parse_directives_loop f f

  -- The default of `ParseInputValue`.
  unfoldable pub parse_default : ℕ → Parser (Option Literal)
  parse_default f ts =
      if at (char b'=') ts
      then (run ts do consume_token (char b'='); v ← parse_literal go f true; pure (some v))
      else ok (none, ts)

  -- `ParseInputValue`, under the lexer's flag `SkipDescriptions`.
  unfoldable pub parse_input_value : Bool → ℕ → Parser InputValue
  parse_input_value skip f ts = run ts do
    desc ← consume_description go skip
    (name, name_loc) ← consume_ident_with_loc
    consume_token (char b':')
    (type, type_loc) ← located (parse_type f)
    default ← parse_default f
    directives ← parse_directives f
    pure (record {
      loc = location ts;
      name = name;
      name_loc = name_loc;
      type = type;
      type_loc = type_loc;
      default = default;
      desc = desc;
      directives = directives;
    })

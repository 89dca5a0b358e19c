-- ===== src/Schema/Literals/Parse.antt =====
-- schema/literals.go: the literals, and `ParseLiteral`.
use graphql.Prelude.{ℕ, zero, suc, String, Bool, ◌&&◌, List, [], ◌∷◌, if◌then◌else◌, ◌==◌, text_lt}
use graphql.Prelude.Result.{out_of_fuel}
use graphql.Qerrors.{Location}
use graphql.Lexer.Token.{TokenKind, ident, char, same_kind}
use graphql.Lexer.Parser.{
  Parser, pure, ◌>>=◌, ◌>>◌, run, at, peek, location, syntax_error_at, variable_not_allowed,
  invalid_value, starts_literal, consume_token, consume_ident, consume_ident_with_loc,
  consume_literal, GoLibrary,
}
use graphql.Lexer.Loop.{until}
use Prim.Native.String.{◌++◌}

-- `Literal`; `Literals` are the entries of a `ListLit`, `Fields` those of an `ObjectLit`. Go's nil,
-- which no parser returns, is `nil_literal`.
mutual
  pub data Literal : Type 0 where
    basic_lit : TokenKind → String → Location → Literal
    list_lit : Literals → Location → Literal
    object_lit : Fields → Location → Literal
    null_lit : Location → Literal
    variable : String → Location → Literal
    nil_literal : Literal

  pub data Literals : Type 0 where
    no_literals : Literals
    literal : Literal → Literals → Literals

  pub data Fields : Type 0 where
    no_fields : Fields
    field : String → Location → Literal → Fields → Fields

-- `ObjectLitField`.
pub record ObjectLitField : Type 0 where
  pub name : String
  pub name_loc : Location
  pub value : Literal

abbrev pub to_literals : List Literal → Literals
to_literals [] = no_literals
to_literals (v ∷ vs) = literal v (to_literals vs)

abbrev pub to_fields : List ObjectLitField → Fields
to_fields [] = no_fields
to_fields (f ∷ fs) = field f.name f.name_loc f.value (to_fields fs)

-- The order by which `ParseLiteral` sorts the fields of an object.
abbrev pub by_name : ObjectLitField → ObjectLitField → Bool
by_name a b = text_lt a.name b.name

-- `ConsumeLiteral`: the type, text and position of the token.
unfoldable pub consume_basic_lit : Parser (TokenKind × String × Location)
consume_basic_lit ts = run ts do text ← consume_literal; pure (peek ts, text, location ts)

-- The cases of `ParseLiteral`: a variable,
unfoldable pub parse_variable : Bool → Parser Literal
parse_variable const_only ts =
    if const_only
    then syntax_error_at variable_not_allowed ts
    else (run ts
        do consume_token (char b'$'); name ← consume_ident; pure (variable name (location ts)))

-- a token that is a literal,
unfoldable pub parse_basic : Parser Literal
parse_basic ts = run ts do
  (kind, text, loc) ← consume_basic_lit
  pure (
      if same_kind kind ident && text == "null"
      then null_lit (location ts)
      else basic_lit kind text (location ts))

-- one behind "-",
unfoldable pub parse_negative : Parser Literal
parse_negative ts = run ts do
  consume_token (char b'-')
  (kind, text, loc) ← consume_basic_lit
  pure (basic_lit kind ("-" ++ text) (location ts))

-- a list,
unfoldable pub parse_list : ℕ → Parser Literal → Parser Literal
parse_list f value ts = run ts do
  consume_token (char b'[')
  entries ← until f (char b']') value
  consume_token (char b']')
  pure (list_lit (to_literals entries) (location ts))

-- and an object.
unfoldable pub parse_field : Parser Literal → Parser ObjectLitField
parse_field value ts = run ts do
  (name, loc) ← consume_ident_with_loc
  consume_token (char b':')
  v ← value
  pure (record { name = name; name_loc = loc; value = v })

unfoldable pub parse_object : GoLibrary → ℕ → Parser Literal → Parser Literal
parse_object go f value ts = run ts do
  consume_token (char b'{')
  fields ← until f (char b'}') (parse_field value)
  consume_token (char b'}')
  pure (object_lit (to_fields (go.sort_slice ObjectLitField by_name fields)) (location ts))

-- `ParseLiteral`.
unfoldable pub parse_literal : GoLibrary → ℕ → Bool → Parser Literal
parse_literal go zero const_only ts = out_of_fuel
parse_literal go (suc f) const_only ts =
    let value = parse_literal go f const_only in
    if at (char b'$') ts
    then parse_variable const_only ts
    else if starts_literal (peek ts)
    then parse_basic ts
    else if at (char b'-') ts
    then parse_negative ts
    else if at (char b'[') ts
    then parse_list f value ts
    else if at (char b'{') ts
    then parse_object go f value ts
    else syntax_error_at (invalid_value (peek ts)) ts

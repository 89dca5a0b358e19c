-- ===== src/Schema/Definitions/Parse.antt =====
-- schema/schema.go: the parsers of declarations, from `parseObjectDef` on. As in the parsers of
-- queries, the fuel `f` is more than the number of the tokens that are left.
use graphql.Prelude.{ℕ, zero, suc, String, Bool, ◌||◌, List, [], ◌∷◌, if◌then◌else◌}
use graphql.Prelude.Result.{ok, out_of_fuel}
use graphql.Lexer.Token.{char}
use graphql.Lexer.Parser.{
  Parser, pure, ◌>>=◌, ◌>>◌, run, at, advance, consume_token, consume_ident, consume_keyword,
  consume_description, peek_keyword, GoLibrary, Description,
}
use graphql.Lexer.Loop.{until}
use graphql.Schema.Types.Parse.{parse_type}
use graphql.Schema.Values.Parse.{InputValueList, parse_directives, parse_input_value}
use graphql.Schema.Definitions.{
  Field, FieldList, Object, Interface, Union, Enum, EnumValue, InputObject, DirectiveDecl, Scalar,
}

module _ (go : GoLibrary) (skip : Bool) (f : ℕ) where
  -- `(`, input values up to `)`, or nothing.
  unfoldable pub parse_args_def : Parser InputValueList
  parse_args_def ts =
      if at (char b'(') ts
      then (run ts do
        consume_token (char b'(')
        args ← until f (char b')') (parse_input_value go skip f)
        consume_token (char b')')
        pure args)
      else ok ([], ts)

  -- One round of the loop in `parseFieldsDef`.
  unfoldable pub parse_field_def : Parser Field
  parse_field_def ts = run ts do
    desc ← consume_description go skip
    name ← consume_ident
    args ← parse_args_def
    consume_token (char b':')
    type ← parse_type f
    directives ← parse_directives go f
    pure (record { name = name; args = args; type = type; directives = directives; desc = desc })

  -- `parseFieldsDef`.
  unfoldable pub parse_fields_def : Parser FieldList
  parse_fields_def ts = until f (char b'}') parse_field_def ts

  -- `{`, `parseFieldsDef` and `}`.
  unfoldable pub parse_field_block : Parser FieldList
  parse_field_block ts = run ts do
    consume_token (char b'{')
    fields ← parse_fields_def
    consume_token (char b'}')
    pure fields

  -- An optional `&`, whose absence must be `stop` where a list of names ends.
  unfoldable pub skip_amp : Parser (Unit {0})
  skip_amp ts = if at (char b'&') ts then consume_token (char b'&') ts else ok (tt, ts)

  -- The loop over the names of interfaces, whose rounds `n` bounds: after a name, `&` goes on, and
  -- otherwise `@` or `{` ends it.
  unfoldable pub parse_interfaces_loop : ℕ → Parser (List String)
  parse_interfaces_loop zero ts = out_of_fuel
  parse_interfaces_loop (suc n) ts = run ts do
    name ← consume_ident
    names ← (λ ts₁.
        let go_on = (run ts₁ do consume_token (char b'&'); parse_interfaces_loop n) in
        let next = parse_interfaces_loop n ts₁ in
        if at (char b'&') ts₁
        then go_on
        else if at (char b'@') ts₁ || at (char b'{') ts₁
        then ok ([], ts₁)
        else next)
    pure (name ∷ names)

  unfoldable pub parse_interfaces : Parser (List String)
  parse_interfaces ts =
      if peek_keyword "implements" ts
      then (run (advance ts) do skip_amp; parse_interfaces_loop f)
      else ok ([], ts)

  -- `parseObjectDef`.
  unfoldable pub parse_object_def : Description → Parser Object
  parse_object_def desc ts = run ts do
    name ← consume_ident
    interface_names ← parse_interfaces
    directives ← parse_directives go f
    fields ← parse_field_block
    pure (record {
      name = name;
      interfaces = [];
      fields = fields;
      desc = desc;
      directives = directives;
      interface_names = interface_names;
    })

  -- `parseInterfaceDef`.
  unfoldable pub parse_interface_def : Description → Parser Interface
  parse_interface_def desc ts = run ts do
    name ← consume_ident
    directives ← parse_directives go f
    fields ← parse_field_block
    pure (record {
      name = name;
      possible_types = [];
      fields = fields;
      desc = desc;
      directives = directives;
    })

  -- The loop `for l.Peek() == '|'` over names, whose rounds `n` bounds.
  unfoldable pub parse_bar_names : ℕ → Parser (List String)
  parse_bar_names zero ts = out_of_fuel
  parse_bar_names (suc n) ts =
      let more =
        (run ts do
          consume_token (char b'|')
          name ← consume_ident
          names ← parse_bar_names n
          pure (name ∷ names)) in
      if at (char b'|') ts then more else ok ([], ts)

  -- `parseUnionDef`.
  unfoldable pub parse_union_def : Description → Parser Union
  parse_union_def desc ts = run ts do
    name ← consume_ident
    directives ← parse_directives go f
    consume_token (char b'=')
    first ← consume_ident
    rest ← parse_bar_names f
    pure (record {
      name = name;
      possible_types = [];
      desc = desc;
      type_names = first ∷ rest;
      directives = directives;
    })

  -- `parseInputDef`.
  unfoldable pub parse_input_def : Description → Parser InputObject
  parse_input_def desc ts = run ts do
    name ← consume_ident
    directives ← parse_directives go f
    consume_token (char b'{')
    fields ← until f (char b'}') (parse_input_value go skip f)
    consume_token (char b'}')
    pure (record { name = name; desc = desc; fields = fields; directives = directives })

  -- One round of the loop in `parseEnumDef`.
  unfoldable pub parse_enum_value : Parser EnumValue
  parse_enum_value ts = run ts do
    desc ← consume_description go skip
    name ← consume_ident
    directives ← parse_directives go f
    pure (record { name = name; directives = directives; desc = desc })

  -- `parseEnumDef`.
  unfoldable pub parse_enum_def : Description → Parser Enum
  parse_enum_def desc ts = run ts do
    name ← consume_ident
    directives ← parse_directives go f
    consume_token (char b'{')
    values ← until f (char b'}') parse_enum_value
    consume_token (char b'}')
    pure (record { name = name; values = values; desc = desc; directives = directives })

  -- `parseDirectiveDef`: after the first location, the loop goes on as long as there is a bar.
  unfoldable pub parse_directive_def : Description → Parser DirectiveDecl
  parse_directive_def desc ts = run ts do
    consume_token (char b'@')
    name ← consume_ident
    args ← parse_args_def
    consume_keyword ("on" ∷ [])
    first ← consume_ident
    rest ← parse_bar_names f
    pure (record { name = name; desc = desc; locs = first ∷ rest; args = args })

  -- The case "scalar" of `parseSchema`.
  unfoldable pub parse_scalar_def : Description → Parser Scalar
  parse_scalar_def desc ts = run ts do
    name ← consume_ident
    directives ← parse_directives go f
    pure (record { name = name; desc = desc; directives = directives })

-- ===== src/Schema/Definitions/Document.antt =====
-- schema/schema.go: `parseSchema`, which adds the declarations of a document to a schema. A failed
-- run keeps no schema: what `Parse` has added before its error is not looked at.
use graphql.Prelude.{
  some, ℕ, zero, suc, String, Bool, true, false, List, [], ◌∷◌, if◌then◌else◌, ◌==◌, length,
}
use graphql.Prelude.Result
use graphql.Prelude.Result.{Result, ok, raised, out_of_fuel}
use graphql.Lexer.Token.{eof, char}
use graphql.Lexer.Parser.{
  Tokens, Failure, syntax_error, unexpected_declaration, Parser, pure, ◌>>=◌, ◌>>◌, run, at,
  location, syntax_error_at, consume_token, consume_ident, consume_keyword, consume_description,
  GoLibrary, Description,
}
use graphql.Lexer.Loop.{until}
use graphql.Schema.Literals.Evaluate.{Numbers}
use graphql.Schema.Values.Parse.{parse_directives}
use graphql.Schema.Query.Parse.{OperationType, query, mutation, subscription}
use graphql.Schema.Definitions.{
  Schema, TypeDef, scalar_def, interface_def, union_def, enum_def, input_def, name_of,
}
use graphql.Schema.Definitions.Maps.{assign}
use graphql.Schema.Definitions.Parse.{
  parse_object_def, parse_interface_def, parse_union_def, parse_input_def, parse_enum_def,
  parse_directive_def, parse_scalar_def,
}
use graphql.Schema.Definitions.Alter.{declare_object}

abbrev pub same_operation : OperationType → OperationType → Bool
same_operation query query = true
same_operation mutation mutation = true
same_operation subscription subscription = true
same_operation _ _ = false

-- `OperationType(…)` of a keyword that is one of the three.
abbrev pub operation_type : String → OperationType
operation_type s =
    if s == "query" then query else if s == "mutation" then mutation else subscription

-- One round of the loop of a `schema` declaration.
unfoldable pub parse_entry_point : Parser (OperationType × String)
parse_entry_point ts = run ts do
  name ← consume_keyword ("query" ∷ "mutation" ∷ "subscription" ∷ [])
  consume_token (char b':')
  type ← consume_ident
  pure (operation_type name, type)

unfoldable pub assign_entry_points :
    List (OperationType × String) → List (OperationType × String) → List (OperationType × String)
assign_entry_points m [] = m
assign_entry_points m ((op, name) ∷ l) = assign_entry_points (assign same_operation m op name) l

-- `s.Types[t.Name] = t`.
abbrev pub put_type : Schema → TypeDef → Schema
put_type s t = record s { types = assign ◌==◌ s.types (name_of t) t }

module _ (go : GoLibrary) (num : Numbers) (skip : Bool) (f : ℕ) where
  -- The case "schema",
  unfoldable pub parse_schema_def : Schema → Parser Schema
  parse_schema_def s ts = run ts do
    directives ← parse_directives go f
    consume_token (char b'{')
    entries ← until f (char b'}') parse_entry_point
    consume_token (char b'}')
    pure (record s {
      directives = directives;
      entry_point_names = assign_entry_points s.entry_point_names entries;
    })

  -- and "type", whose changes may fail behind the object.
  unfoldable pub parse_type_def : Schema → Description → Parser Schema
  parse_type_def s desc ts = run ts do
    obj ← parse_object_def go skip f desc
    λ rest.
        Result.bind
          (declare_object go num (λ m. raised (syntax_error m (location rest))) s.types obj)
          λ types. ok (record s { types = types }, rest)

  -- The declaration behind a keyword.
  unfoldable pub parse_declaration_of : Schema → Description → String → Parser Schema
  parse_declaration_of s desc x ts =
      if x == "schema"
      then parse_schema_def s ts
      else if x == "type"
      then parse_type_def s desc ts
      else if x == "interface"
      then (run ts do t ← parse_interface_def go skip f desc; pure (put_type s (interface_def t)))
      else if x == "union"
      then (run ts do t ← parse_union_def go skip f desc; pure (put_type s (union_def t)))
      else if x == "enum"
      then (run ts do t ← parse_enum_def go skip f desc; pure (put_type s (enum_def t)))
      else if x == "input"
      then (run ts do t ← parse_input_def go skip f desc; pure (put_type s (input_def t)))
      else if x == "scalar"
      then (run ts do t ← parse_scalar_def go skip f desc; pure (put_type s (scalar_def t)))
      else if x == "directive"
      then (run ts do
        d ← parse_directive_def go skip f desc
        pure (record s { declared_directives = assign ◌==◌ s.declared_directives d.name (some d) }))
      else syntax_error_at (unexpected_declaration x) ts

  -- One round of the loop in `parseSchema`.
  unfoldable pub parse_declaration : Schema → Parser Schema
  parse_declaration s ts =
      run ts do desc ← consume_description go skip; x ← consume_ident; parse_declaration_of s desc x

  -- The loop, whose rounds `n` bounds.
  unfoldable pub parse_declarations : ℕ → Schema → Parser Schema
  parse_declarations zero s ts = out_of_fuel
  parse_declarations (suc n) s ts =
      let more = (run ts do s' ← parse_declaration s; parse_declarations n s') in
      if at eof ts then ok (s, ts) else more

-- `parseSchema`, as `Schema.Parse` calls it.
unfoldable pub parse_schema : GoLibrary → Numbers → Schema → Tokens → Result Failure Schema
parse_schema go num s ts =
    Result.bind (parse_declarations go num false (suc (length ts)) (suc (length ts)) s ts)
      λ (s', _). ok s'

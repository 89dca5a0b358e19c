-- ===== src/Schema/Query/Parse.antt =====
-- schema/query.go: documents, operations, fragments and selections, and their parsers.
use graphql.Prelude.{ℕ, zero, suc, String, Bool, List, [], ◌∷◌, ◌++◌, if◌then◌else◌, ◌==◌, length}
use graphql.Prelude.Result
use graphql.Prelude.Result.{Result, ok, out_of_fuel}
use graphql.Qerrors.{Location}
use graphql.Lexer.Token.{eof, ident, char}
use graphql.Lexer.Parser.{
  Tokens, Failure, Parser, pure, ◌>>=◌, ◌>>◌, run, at, location, located, no_location,
  syntax_error_at, unexpected_definition, consume_token, consume_ident, consume_ident_with_loc,
  consume_keyword, GoLibrary,
}
use graphql.Lexer.Loop.{until}
use graphql.Schema.Values.Parse.{
  ArgumentList, DirectiveList, InputValue, InputValueList, parse_optional_arguments,
  parse_directives, parse_input_value,
}
use Prim.Native.String.{◌++◌ as ◌concat◌}

-- `TypeName`, the type condition of a fragment; a fragment without one has the zero value.
pub record TypeName : Type 0 where
  pub name : String
  pub name_loc : Location

abbrev pub no_type_name : TypeName
no_type_name = record { name = ""; name_loc = no_location }

-- The fields of `FieldSelection` but its selections.
pub record FieldHead : Type 0 where
  pub alias : String
  pub alias_loc : Location
  pub name : String
  pub name_loc : Location
  pub arguments : ArgumentList
  pub directives : DirectiveList
  pub selection_set_loc : Location

-- `Selection`: `FieldSelection`, `InlineFragment` and `FragmentSpread`; `Selections` is
-- `SelectionList`, which is empty where Go has nil.
mutual
  pub data Selection : Type 0 where
    field_selection : FieldHead → Selections → Selection
    inline_fragment : TypeName → DirectiveList → Selections → Location → Selection
    fragment_spread : String → Location → DirectiveList → Location → Selection

  pub data Selections : Type 0 where
    no_selections : Selections
    selection : Selection → Selections → Selections

-- `OperationType`.
pub data OperationType : Type 0 where
  query mutation subscription : OperationType

-- `Operation`.
pub record Operation : Type 0 where
  pub type : OperationType
  pub name : String
  pub name_loc : Location
  pub vars : InputValueList
  pub selections : Selections
  pub directives : DirectiveList
  pub loc : Location

-- `FragmentDecl`, with the fields of its `Fragment`.
pub record FragmentDecl : Type 0 where
  pub on : TypeName
  pub selections : Selections
  pub name : String
  pub name_loc : Location
  pub directives : DirectiveList
  pub loc : Location

-- `QueryDocument`.
pub record QueryDocument : Type 0 where
  pub operations : List Operation
  pub fragments : List FragmentDecl

abbrev pub no_document : QueryDocument
no_document = record { operations = []; fragments = [] }

abbrev pub to_selections : List Selection → Selections
to_selections [] = no_selections
to_selections (s ∷ ss) = selection s (to_selections ss)

-- `parseTypeName`, as the type condition of a fragment.
unfoldable pub parse_on : Parser TypeName
parse_on ts =
    run ts do (name, loc) ← consume_ident_with_loc; pure (record { name = name; name_loc = loc })

-- `parseSelectionSet`, given `parseSelection`.
unfoldable pub parse_selection_set : ℕ → Parser Selection → Parser Selections
parse_selection_set f sel ts = run ts do
  consume_token (char b'{')
  sels ← until f (char b'}') sel
  consume_token (char b'}')
  pure (to_selections sels)

-- The selections of `parseField`, and where they begin.
unfoldable pub parse_optional_set : ℕ → Parser Selection → Parser (Selections × Location)
parse_optional_set f sel ts =
    if at (char b'{') ts
    then located (parse_selection_set f sel) ts
    else ok ((no_selections, no_location), ts)

-- The name behind an alias; without one the alias is the name, and `NameLoc` keeps its zero value.
unfoldable pub parse_name : String → Parser (String × Location)
parse_name alias ts =
    if at (char b':') ts
    then (run ts do consume_token (char b':'); consume_ident_with_loc)
    else ok ((alias, no_location), ts)

-- The name of an operation in `parseOperation`.
unfoldable pub parse_operation_name : Parser (String × Location)
parse_operation_name ts =
    if at ident ts then consume_ident_with_loc ts else ok (("", no_location), ts)

module _ (go : GoLibrary) where
  -- `parseField`.
  unfoldable pub parse_field : ℕ → Parser Selection → Parser Selection
  parse_field f sel ts = run ts do
    (alias, alias_loc) ← consume_ident_with_loc
    (name, name_loc) ← parse_name alias
    arguments ← parse_optional_arguments go f
    directives ← parse_directives go f
    (sels, set_loc) ← parse_optional_set f sel
    pure (
        field_selection
          (record {
            alias = alias;
            alias_loc = alias_loc;
            name = name;
            name_loc = name_loc;
            arguments = arguments;
            directives = directives;
            selection_set_loc = set_loc;
          })
          sels)

  -- The end of `parseSpread` for an inline fragment,
  unfoldable pub parse_inline : ℕ → Parser Selection → TypeName → Location → Parser Selection
  parse_inline f sel on loc ts = run ts do
    directives ← parse_directives go f
    sels ← parse_selection_set f sel
    pure (inline_fragment on directives sels loc)

  -- for a fragment spread,
  unfoldable pub parse_fragment_spread : ℕ → String → Location → Location → Parser Selection
  parse_fragment_spread f name name_loc loc ts =
      run ts
        do directives ← parse_directives go f; pure (fragment_spread name name_loc directives loc)

  -- and the choice between the two by the name behind the dots.
  unfoldable pub parse_named_spread :
      ℕ → Parser Selection → String → Location → Location → Parser Selection
  parse_named_spread f sel name name_loc loc ts =
      if name == "on"
      then (run ts do on ← parse_on; parse_inline f sel on loc)
      else parse_fragment_spread f name name_loc loc ts

  unfoldable pub parse_spread_end : ℕ → Parser Selection → Location → Parser Selection
  parse_spread_end f sel loc ts =
      if at ident ts
      then (run ts
          do (name, name_loc) ← consume_ident_with_loc; parse_named_spread f sel name name_loc loc)
      else parse_inline f sel no_type_name loc ts

  -- `parseSpread`.
  unfoldable pub parse_spread : ℕ → Parser Selection → Parser Selection
  parse_spread f sel ts = run ts do
    consume_token (char b'.')
    consume_token (char b'.')
    consume_token (char b'.')
    parse_spread_end f sel (location ts)

  -- `parseSelection`.
  unfoldable pub parse_selection : ℕ → Parser Selection
  parse_selection zero ts = out_of_fuel
  parse_selection (suc f) ts =
      let sel = parse_selection f in
      if at (char b'.') ts then parse_spread f sel ts else parse_field f sel ts

  -- One round of the loop over the variables in `parseOperation`.
  unfoldable pub parse_var : Bool → ℕ → Parser InputValue
  parse_var skip f ts = run ts do
    consume_token (char b'$')
    iv ← parse_input_value go skip f
    pure (record iv { name = ◌concat◌ "$" iv.name; loc = location ts })

  unfoldable pub parse_vars : Bool → ℕ → Parser InputValueList
  parse_vars skip f ts =
      if at (char b'(') ts
      then (run ts do
        consume_token (char b'(')
        vars ← until f (char b')') (parse_var skip f)
        consume_token (char b')')
        pure vars)
      else ok ([], ts)

  -- `parseOperation`.
  unfoldable pub parse_operation : Bool → ℕ → OperationType → Parser Operation
  parse_operation skip f type ts = run ts do
    (name, name_loc) ← parse_operation_name
    directives ← parse_directives go f
    vars ← parse_vars skip f
    sels ← parse_selection_set f (parse_selection f)
    pure (record {
      type = type;
      name = name;
      name_loc = name_loc;
      vars = vars;
      selections = sels;
      directives = directives;
      loc = location ts;
    })

  -- `parseFragment`, with the position that `parseDocument` sets.
  unfoldable pub parse_fragment : ℕ → Location → Parser FragmentDecl
  parse_fragment f loc ts = run ts do
    (name, name_loc) ← consume_ident_with_loc
    consume_keyword ("on" ∷ [])
    on ← parse_on
    directives ← parse_directives go f
    sels ← parse_selection_set f (parse_selection f)
    pure (record {
      on = on;
      selections = sels;
      name = name;
      name_loc = name_loc;
      directives = directives;
      loc = loc;
    })

  -- The operation that is a selection set alone.
  unfoldable pub parse_anonymous : ℕ → Parser Operation
  parse_anonymous f ts = run ts do
    sels ← parse_selection_set f (parse_selection f)
    pure (record {
      type = query;
      name = "";
      name_loc = no_location;
      vars = [];
      selections = sels;
      directives = [];
      loc = location ts;
    })

abbrev pub add_operation : QueryDocument → Operation → QueryDocument
add_operation d op = record d { operations = d.operations ++ op ∷ [] }

abbrev pub add_fragment : QueryDocument → FragmentDecl → QueryDocument
add_fragment d frag = record d { fragments = d.fragments ++ frag ∷ [] }

module _ (go : GoLibrary) (skip : Bool) (f : ℕ) where
  -- The definition behind a keyword.
  unfoldable pub parse_keyword : QueryDocument → String → Location → Parser QueryDocument
  parse_keyword d x loc ts =
      if x == "query"
      then (run ts
          do op ← parse_operation go skip f query; pure (add_operation d (record op { loc = loc })))
      else if x == "mutation"
      then (run ts do op ← parse_operation go skip f mutation; pure (add_operation d op))
      else if x == "subscription"
      then (run ts do op ← parse_operation go skip f subscription; pure (add_operation d op))
      else if x == "fragment"
      then (run ts do frag ← parse_fragment go f loc; pure (add_fragment d frag))
      else syntax_error_at (unexpected_definition x) ts

  -- One round of the loop in `parseDocument`.
  unfoldable pub parse_definition : QueryDocument → Parser QueryDocument
  parse_definition d ts =
      if at (char b'{') ts
      then (run ts do op ← parse_anonymous go f; pure (add_operation d op))
      else (run ts do x ← consume_ident; parse_keyword d x (location ts))

  -- The loop, whose rounds `n` bounds.
  unfoldable pub parse_document : ℕ → QueryDocument → Parser QueryDocument
  parse_document zero d ts = out_of_fuel
  parse_document (suc n) d ts =
      let more = (run ts do d' ← parse_definition d; parse_document n d') in
      if at eof ts then ok (d, ts) else more

-- `QueryDocument.Parse` and `ParseWithDescriptions`, by the flag `skip`, of a new document.
unfoldable pub parse : GoLibrary → Bool → Tokens → Result Failure QueryDocument
parse go skip ts =
    Result.bind (parse_document go skip (suc (length ts)) (suc (length ts)) no_document ts)
      λ (d, _). ok d

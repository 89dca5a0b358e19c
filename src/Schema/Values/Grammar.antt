-- ===== src/Schema/Values/Grammar.antt =====
-- The grammar of arguments, directives and input values, over tokens.
use graphql.Prelude.{String, ◌-◌, Bool, true, false, ◌≡◌, ◌⊎◌, Option, none, some, [], ◌∷◌, ◌++◌}
use graphql.Qerrors.{Location}
use graphql.Lexer.Token.{Token, ident, string, block_string, char}
use graphql.Lexer.Parser.{
  Tokens, location, GoLibrary, Description, describe, no_description, show_string, show_block,
  block_text,
}
use graphql.Lexer.Loop.{SpellsEach}
use graphql.Schema.Types.Grammar.{SpellsType}
use graphql.Schema.Literals.Parse.{Literal}
use graphql.Schema.Literals.Grammar.{SpellsLiteral}
use graphql.Schema.Values.Parse.{Argument, ArgumentList, Directive, DirectiveList, InputValue}

module _ (go : GoLibrary) where
  -- A name, ":" and a literal.
  pub data SpellsArgument : Argument → Tokens → Type 0 where
    argument :
        {v : Literal} {ps : Tokens} (n c : Token)
        → n.kind ≡ ident
        → c.kind ≡ char b':'
        → SpellsLiteral go false v ps
        → SpellsArgument (record { name = n.text; name_loc = n.loc; value = v }) (n ∷ c ∷ ps)

  -- Arguments between parentheses, or nothing.
  pub data SpellsArguments : ArgumentList → Tokens → Type 0 where
    no_arguments : SpellsArguments [] []
    arguments :
        {args : ArgumentList} {ps : Tokens} (l r : Token)
        → l.kind ≡ char b'('
        → r.kind ≡ char b')'
        → SpellsEach SpellsArgument args ps
        → SpellsArguments args (l ∷ (ps ++ r ∷ []))

  -- "@", a name and its arguments. The position is one column before the name.
  pub data SpellsDirective : Directive → Tokens → Type 0 where
    directive :
        {args : ArgumentList} {ps : Tokens} (a n : Token)
        → a.kind ≡ char b'@'
        → n.kind ≡ ident
        → SpellsArguments args ps
        → SpellsDirective
            (record {
              name = n.text;
              name_loc = record { line = n.loc.line; column = n.loc.column - 1 };
              args = args;
            })
            (a ∷ n ∷ ps)

  abbrev pub SpellsDirectives : DirectiveList → Tokens → Type 0
  SpellsDirectives = SpellsEach SpellsDirective

  -- A string or a block string, whose text is dropped if descriptions are skipped; or nothing.
  pub data SpellsDescription (skip : Bool) : Description → Tokens → Type 0 where
    absent : (loc : Location) → SpellsDescription skip (describe no_description "" loc) []
    skipped :
        (t : Token)
        → skip ≡ true
        → (t.kind ≡ string) ⊎ (t.kind ≡ block_string)
        → SpellsDescription skip (describe no_description "" t.loc) (t ∷ [])
    quoted :
        (t : Token) (text : String)
        → skip ≡ false
        → t.kind ≡ string
        → go.unquote t.text ≡ some text
        → SpellsDescription skip (describe show_string text t.loc) (t ∷ [])
    block :
        (t : Token)
        → skip ≡ false
        → t.kind ≡ block_string
        → SpellsDescription skip (describe show_block (block_text go (t ∷ [])) t.loc) (t ∷ [])

  -- "=" and a literal without variables, or nothing.
  pub data SpellsDefault : Option Literal → Tokens → Type 0 where
    no_default : SpellsDefault none []
    default :
        {v : Literal} {ps : Tokens} (e : Token)
        → e.kind ≡ char b'='
        → SpellsLiteral go true v ps
        → SpellsDefault (some v) (e ∷ ps)

  -- A description, a name, ":", a type, a default and directives. The positions are those of the
  -- first token of the whole and of the type; the description is at the first token too.
  pub data SpellsInputValue (skip : Bool) : InputValue → Tokens → Type 0 where
    input_value :
        {v : InputValue} {ps qs ss us ts : Tokens} (n c : Token)
        → SpellsDescription skip v.desc ps
        → n.kind ≡ ident
        → c.kind ≡ char b':'
        → SpellsType v.type qs
        → SpellsDefault v.default ss
        → SpellsDirectives v.directives us
        → ts ≡ ps ++ (n ∷ c ∷ (qs ++ (ss ++ us)))
        → (v.name ≡ n.text) × (v.name_loc ≡ n.loc) × (v.type_loc ≡ location qs)
        → (v.loc ≡ location ts) × (v.desc.loc ≡ location ts)
        → SpellsInputValue skip v ts

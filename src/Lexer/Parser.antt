-- ===== src/Lexer/Parser.antt =====
-- internal/lexer/lexer.go: the methods of the lexer, over the stream that has no commas.
-- The state is that stream, with the current token (`Peek`, `TokenText`, `Location`) at its head.
-- A syntax error is a panic that `CatchSyntaxError` turns into an error at the position where the
-- lexer then stands; any other panic goes on to the caller.
use graphql.Prelude.{
  ◌-◌, String, Bool, true, false, ◌&&◌, ◌||◌, not, List, [], ◌∷◌, map, Option, none, some,
  if◌then◌else◌, ◌==◌,
}
use graphql.Prelude.Result
use graphql.Prelude.Result.{Result, ok, raised, out_of_fuel}
use graphql.Qerrors.{Location}
use graphql.Lexer.Token.{Token, TokenKind, eof, ident, int, float, string, block_string, same_kind}
use Prim.Native.String.{slice, len}

abbrev pub Tokens : Type 0
Tokens = List Token

-- The texts of the messages: what was found, and what was expected.
pub data Message : Type 0 where
  expecting_token : (found : String) (expected : TokenKind) → Message
  expecting_keyword : (found : String) (expected : List String) → Message
  expecting_literal : (found : TokenKind) → Message
  variable_not_allowed : Message
  invalid_value : (found : TokenKind) → Message
  unexpected_definition : (found : String) → Message
  unexpected_declaration : (found : String) → Message
  cannot_update : (name kind : String) → Message

pub data Failure : Type 0 where
  syntax_error : Message → Location → Failure
  invalid_string : Location → Failure
  panicked : String → Failure

abbrev pub Parser {ℓ} : Type ℓ → Type ℓ
Parser A = Tokens → Result Failure (A × Tokens)

abbrev pub pure {ℓ} : {V : Type ℓ} → V → Parser V
pure v input = ok (v, input)

-- One parser after another.
infixl 1 ◌>>=◌ ◌>>◌
abbrev pub ◌>>=◌ {ℓ κ} : {V : Type ℓ} {W : Type κ} → Parser V → (V → Parser W) → Parser W
first >>= second = λ input. Result.bind (first input) λ (v, left). second v left

abbrev pub ◌>>◌ {ℓ κ} : {V : Type ℓ} {W : Type κ} → Parser V → Parser W → Parser W
first >> second = first >>= λ _. second

abbrev pub run {ℓ} : {A : Type ℓ} → Tokens → Parser A → Result Failure (A × Tokens)
run ts p = p ts

-- `Lexer.Peek`.
abbrev pub peek : Tokens → TokenKind
peek [] = eof
peek (t ∷ _) = t.kind

-- `l.sc.TokenText` and `TokenTextIntern`.
abbrev pub token_text : Tokens → String
token_text [] = ""
token_text (t ∷ _) = t.text

abbrev pub no_location : Location
no_location = record { line = 0; column = 0 }

-- `Lexer.Location`.
abbrev pub location : Tokens → Location
location [] = no_location
location (t ∷ _) = t.loc

-- A run with the position at which it starts, `loc := l.Location()`.
abbrev pub located {ℓ} : {A : Type ℓ} → Parser A → Parser (A × Location)
located p ts = run ts do a ← p; pure (a, location ts)

-- `Lexer.Consume`, which `Lexer.Consume.ahead-consume` shows to be the tail of the stream.
abbrev pub advance : Tokens → Tokens
advance [] = []
advance (_ ∷ ts) = ts

abbrev pub at : TokenKind → Tokens → Bool
at k ts = same_kind (peek ts) k

-- `Lexer.SyntaxError`, as `CatchSyntaxError` reports it.
abbrev pub syntax_error_at {ℓ} : {A : Type ℓ} → Message → Parser A
syntax_error_at m ts = raised (syntax_error m (location ts))

-- `Lexer.ConsumeToken`.
unfoldable pub consume_token : TokenKind → Parser (Unit {0})
consume_token expected ts =
    if at expected ts
    then ok (tt, advance ts)
    else syntax_error_at (expecting_token (token_text ts) expected) ts

-- `Lexer.ConsumeIdentIntern`.
unfoldable pub consume_ident : Parser String
consume_ident ts = run ts do consume_token ident; pure (token_text ts)

-- `Lexer.ConsumeIdentInternWithLoc`.
unfoldable pub consume_ident_with_loc : Parser (String × Location)
consume_ident_with_loc ts = run ts do consume_token ident; pure (token_text ts, location ts)

-- `Lexer.PeekKeyword`.
abbrev pub peek_keyword : String → Tokens → Bool
peek_keyword keyword ts = at ident ts && token_text ts == keyword

-- `isOneOf`.
abbrev pub is_one_of : String → List String → Bool
is_one_of one [] = false
is_one_of one (v ∷ vs) = if one == v then true else is_one_of one vs

-- `Lexer.ConsumeKeyword`.
unfoldable pub consume_keyword : List String → Parser String
consume_keyword keywords ts =
    if not (at ident ts) || not (is_one_of (token_text ts) keywords)
    then syntax_error_at (expecting_keyword (token_text ts) keywords) ts
    else ok (token_text ts, advance ts)

-- The cases of the `switch` in `ConsumeLiteral` and in `ParseLiteral`.
abbrev pub starts_literal : TokenKind → Bool
starts_literal int = true
starts_literal float = true
starts_literal string = true
starts_literal block_string = true
starts_literal ident = true
starts_literal _ = false

-- `Lexer.ConsumeLiteral`.
unfoldable pub consume_literal : Parser String
consume_literal ts =
    if starts_literal (peek ts)
    then ok (token_text ts, advance ts)
    else syntax_error_at (expecting_literal (peek ts)) ts

-- What the code calls of Go's library: `strconv.Unquote`, `sort.Slice`, and from `strings` `Split`
-- at line ends, `TrimPrefix` and `Join` with line ends.
pub record GoLibrary : Type 1 where
  pub unquote : String → Option String
  pub sort_slice : (A : Type 0) → (A → A → Bool) → List A → List A
  pub split_lines : String → List String
  pub trim_prefix : String → String → String
  pub join_lines : List String → String

-- `ShowType`, without the initial value `PossibleDescription`, which `ConsumeDescription` never
-- leaves.
pub data ShowType : Type 0 where
  show_string show_block no_description : ShowType

pub record Description : Type 0 where
  pub show_type : ShowType
  pub text : String
  pub loc : Location

abbrev pub describe : ShowType → String → Location → Description
describe show_type text loc = record { show_type = show_type; text = text; loc = loc }

module _ (go : GoLibrary) where
  -- `trimLinePrefixes`.
  unfoldable pub trim_line_prefixes : String → String → String
  trim_line_prefixes text prefix =
      if prefix == ""
      then text
      else go.join_lines (map (λ line. go.trim_prefix line prefix) (go.split_lines text))

  -- `Lexer.ConsumeString`.
  unfoldable pub consume_string : Parser String
  consume_string ts = elim (go.unquote (token_text ts)) [
    | none ↦ raised (invalid_string (location ts))
    | some unquoted ↦ run ts do consume_token string; pure unquoted
  ]

  -- The text of a block string without its quotes and the indentation of its first line.
  unfoldable pub block_text : Tokens → String
  unfolding trim_line_prefixes
  block_text [] = ""
  block_text (t ∷ _) = trim_line_prefixes (slice t.text 3 (len t.text - 3)) t.line_prefix

  -- `Lexer.ConsumeDescription`, under the flag `SkipDescriptions`.
  unfoldable pub consume_description : Bool → Parser Description
  unfolding block_text
  consume_description skip ts =
      let loc = location ts in
      if at string ts
      then (if skip
          then (run ts do consume_token string; pure (describe no_description "" loc))
          else (run ts do text ← consume_string; pure (describe show_string text loc)))
      else (if at block_string ts
          then (if skip
              then (run ts do consume_token block_string; pure (describe no_description "" loc))
              else (run ts
                  do consume_token block_string; pure (describe show_block (block_text ts) loc)))
          else ok (describe no_description "" loc, ts))

-- ===== src/Tests/Data.antt =====
-- Tokens, and the calls of Go's library on the texts of the tests.
use graphql.Prelude.{ℕ, String, List, [], ◌∷◌, none, if◌then◌else◌, Bool}
use graphql.Qerrors.{Location}
use graphql.Lexer.Token.{Token, TokenKind, eof, ident, int, char}
use graphql.Lexer.Parser.{GoLibrary, Tokens}

-- Insertion sort stands for `sort.Slice`; the tests unquote no text and split none.
abbrev pub insert : (A : Type 0) → (A → A → Bool) → A → List A → List A
insert A less x [] = x ∷ []
insert A less x (y ∷ ys) =
    let rest = insert A less x ys in if less y x then y ∷ rest else x ∷ y ∷ ys

abbrev pub insertion_sort : (A : Type 0) → (A → A → Bool) → List A → List A
insertion_sort A less [] = []
insertion_sort A less (x ∷ xs) = insert A less x (insertion_sort A less xs)

abbrev pub go_example : GoLibrary
go_example = record {
  unquote = λ s. none;
  sort_slice = insertion_sort;
  split_lines = λ s. s ∷ [];
  trim_prefix = λ s prefix. s;
  join_lines = λ lines. "";
}

abbrev pub place : ℕ → Location
place column = record { line = 1; column = column }

abbrev pub token : TokenKind → String → ℕ → Token
token kind text column = record { kind = kind; text = text; loc = place column; line_prefix = "" }

abbrev pub word : String → ℕ → Token
word = token ident

abbrev pub end_token : Token
end_token = token eof "" 99

-- `[T!]`, and then `)`.
abbrev pub list_type_tokens : Tokens
list_type_tokens =
    token (char b'[') "[" 1 ∷ word "T" 2 ∷ token (char b'!') "!" 3 ∷ token (char b']') "]" 4 ∷ []

-- `{b: 2, a: -$x}` without the comma, and with `1` for the variable.
abbrev pub object_tokens : Tokens
object_tokens =
    token (char b'{') "{" 1
    ∷ word "b" 2
    ∷ token (char b':') ":" 3
    ∷ token int "2" 5
    ∷ word "a" 8
    ∷ token (char b':') ":" 9
    ∷ token (char b'-') "-" 11
    ∷ token int "1" 12
    ∷ token (char b'}') "}" 13
    ∷ []

-- `{a ...F}`
abbrev pub set_tokens : Tokens
set_tokens =
    token (char b'{') "{" 1
    ∷ word "a" 2
    ∷ token (char b'.') "." 4
    ∷ token (char b'.') "." 5
    ∷ token (char b'.') "." 6
    ∷ word "F" 7
    ∷ token (char b'}') "}" 8
    ∷ end_token
    ∷ []

-- `... on T @live {a}`
abbrev pub spread_tokens : Tokens
spread_tokens =
    token (char b'.') "." 1
    ∷ token (char b'.') "." 2
    ∷ token (char b'.') "." 3
    ∷ word "on" 5
    ∷ word "T" 8
    ∷ token (char b'@') "@" 10
    ∷ word "live" 11
    ∷ token (char b'{') "{" 16
    ∷ word "a" 17
    ∷ token (char b'}') "}" 18
    ∷ []

-- ===== src/Lexer/Token.antt =====
-- internal/scanner/scanner.go (the token types only): what one call of Scan leaves in the lexer.
use graphql.Prelude.{ℕ, String, Bool, true, false, ◌≡◌, refl, ◌=?◌, =?_iff, ap, arith}
use graphql.Qerrors.{Location}

-- The negative token types by name, and any other character by its code point.
pub data TokenKind : Type 0 where
  eof ident int float string block_string comment : TokenKind
  char : ℕ → TokenKind

-- Go's `==` on token types.
abbrev pub same_kind : TokenKind → TokenKind → Bool
same_kind eof eof = true
same_kind ident ident = true
same_kind int int = true
same_kind float float = true
same_kind string string = true
same_kind block_string block_string = true
same_kind comment comment = true
same_kind (char a) (char b) = a =? b
same_kind _ _ = false

-- `line_prefix` is the text of the token's line that stands before it.
pub record Token : Type 0 where
  pub kind : TokenKind
  pub text : String
  pub loc : Location
  pub line_prefix : String

pub same_kind→≡ : (a b : TokenKind) → same_kind a b ≡ true → a ≡ b
same_kind→≡ (char a) (char b) h = ap char ((=?_iff a b).0 h)
same_kind→≡ a b h = ground arith

pub same_kind_refl : (a : TokenKind) → same_kind a a ≡ true
same_kind_refl (char a) = (=?_iff a a).1 refl
same_kind_refl _ = refl

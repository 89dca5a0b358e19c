-- ===== src/Schema/Definitions/Declarations.antt =====
-- The parser of each kind of declaration reads a token at least and stays within its fuel.
use graphql.Prelude.{ℕ, ◌<◌, Bool, [], ◌∷◌, arith, length}
use graphql.Prelude.Result.{Ensures, holds, Ensures-bind}
use graphql.Lexer.Token.{char}
use graphql.Lexer.Parser.{Tokens, GoLibrary, Description}
use graphql.Schema.Definitions.Parse.{
  parse_object_def, parse_interface_def, parse_union_def, parse_input_def, parse_enum_value,
  parse_enum_def, parse_directive_def, parse_scalar_def,
}
use graphql.Schema.Definitions.Lengths.{
  Shrinks, consume_token-Shrinks, consume_ident-Shrinks, consume_keyword-Shrinks,
  description-NoLonger, directives-NoLonger, input_value-Shrinks, args_def-NoLonger, block-Shrinks,
  field_block-Shrinks, interfaces-NoLonger, bar_names-NoLonger,
}

module _ (go : GoLibrary) (skip : Bool) (f : ℕ) (desc : Description) where
  pub object_def-Shrinks :
      (ts : Tokens) → length ts < f → Ensures (Shrinks ts) (parse_object_def go skip f desc ts)
  unfolding parse_object_def
  object_def-Shrinks ts h = Ensures-bind (consume_ident-Shrinks ts) λ (_, ts₁) l₁.
      Ensures-bind (interfaces-NoLonger go skip f ts₁ (omega arith)) λ (_, ts₂) l₂.
        Ensures-bind (directives-NoLonger go skip f ts₂ (omega arith)) λ (_, ts₃) l₃.
          Ensures-bind (field_block-Shrinks go skip f ts₃ (omega arith))
            λ (_, ts₄) l₄. holds (omega arith)

  pub interface_def-Shrinks :
      (ts : Tokens) → length ts < f → Ensures (Shrinks ts) (parse_interface_def go skip f desc ts)
  unfolding parse_interface_def
  interface_def-Shrinks ts h = Ensures-bind (consume_ident-Shrinks ts) λ (_, ts₁) l₁.
      Ensures-bind (directives-NoLonger go skip f ts₁ (omega arith)) λ (_, ts₃) l₃.
        Ensures-bind (field_block-Shrinks go skip f ts₃ (omega arith))
          λ (_, ts₄) l₄. holds (omega arith)

  pub union_def-Shrinks :
      (ts : Tokens) → length ts < f → Ensures (Shrinks ts) (parse_union_def go skip f desc ts)
  unfolding parse_union_def
  union_def-Shrinks ts h = Ensures-bind (consume_ident-Shrinks ts) λ (_, ts₁) l₁.
      Ensures-bind (directives-NoLonger go skip f ts₁ (omega arith)) λ (_, ts₂) l₂.
        Ensures-bind (consume_token-Shrinks (char b'=') ts₂ (cc)) λ (_, ts₃) l₃.
          Ensures-bind (consume_ident-Shrinks ts₃) λ (_, ts₄) l₄.
            Ensures-bind (bar_names-NoLonger go skip f f ts₄ (omega arith))
              λ (_, ts₅) l₅. holds (omega arith)

  pub input_def-Shrinks :
      (ts : Tokens) → length ts < f → Ensures (Shrinks ts) (parse_input_def go skip f desc ts)
  unfolding parse_input_def
  input_def-Shrinks ts h = Ensures-bind (consume_ident-Shrinks ts) λ (_, ts₁) l₁.
      Ensures-bind (directives-NoLonger go skip f ts₁ (omega arith)) λ (_, ts₂) l₂.
        Ensures-bind (consume_token-Shrinks (char b'{') ts₂ (cc)) λ (_, ts₃) l₃.
          Ensures-bind (block-Shrinks go skip f _ (input_value-Shrinks go skip f) ts₃ (omega arith))
            λ (_, ts₄) l₄.
              Ensures-bind (consume_token-Shrinks (char b'}') ts₄ (cc))
                λ (_, ts₅) l₅. holds (omega arith)

  pub enum_value-Shrinks :
      (ts : Tokens) → length ts < f → Ensures (Shrinks ts) (parse_enum_value go skip f ts)
  unfolding parse_enum_value
  enum_value-Shrinks ts h = Ensures-bind (description-NoLonger go skip ts) λ (_, ts₁) l₁.
      Ensures-bind (consume_ident-Shrinks ts₁) λ (_, ts₂) l₂.
        Ensures-bind (directives-NoLonger go skip f ts₂ (omega arith))
          λ (_, ts₃) l₃. holds (omega arith)

  pub enum_def-Shrinks :
      (ts : Tokens) → length ts < f → Ensures (Shrinks ts) (parse_enum_def go skip f desc ts)
  unfolding parse_enum_def
  enum_def-Shrinks ts h = Ensures-bind (consume_ident-Shrinks ts) λ (_, ts₁) l₁.
      Ensures-bind (directives-NoLonger go skip f ts₁ (omega arith)) λ (_, ts₂) l₂.
        Ensures-bind (consume_token-Shrinks (char b'{') ts₂ (cc)) λ (_, ts₃) l₃.
          Ensures-bind (block-Shrinks go skip f _ enum_value-Shrinks ts₃ (omega arith))
            λ (_, ts₄) l₄.
              Ensures-bind (consume_token-Shrinks (char b'}') ts₄ (cc))
                λ (_, ts₅) l₅. holds (omega arith)

  pub directive_def-Shrinks :
      (ts : Tokens) → length ts < f → Ensures (Shrinks ts) (parse_directive_def go skip f desc ts)
  unfolding parse_directive_def
  directive_def-Shrinks ts h =
      Ensures-bind (consume_token-Shrinks (char b'@') ts (cc)) λ (_, ts₁) l₁.
        Ensures-bind (consume_ident-Shrinks ts₁) λ (_, ts₂) l₂.
          Ensures-bind (args_def-NoLonger go skip f ts₂ (omega arith)) λ (_, ts₃) l₃.
            Ensures-bind (consume_keyword-Shrinks ("on" ∷ []) ts₃) λ (_, ts₄) l₄.
              Ensures-bind (consume_ident-Shrinks ts₄) λ (_, ts₅) l₅.
                Ensures-bind (bar_names-NoLonger go skip f f ts₅ (omega arith))
                  λ (_, ts₆) l₆. holds (omega arith)

  pub scalar_def-Shrinks :
      (ts : Tokens) → length ts < f → Ensures (Shrinks ts) (parse_scalar_def go skip f desc ts)
  unfolding parse_scalar_def
  scalar_def-Shrinks ts h = Ensures-bind (consume_ident-Shrinks ts) λ (_, ts₁) l₁.
      Ensures-bind (directives-NoLonger go skip f ts₁ (omega arith))
        λ (_, ts₂) l₂. holds (omega arith)

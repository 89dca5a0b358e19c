-- ===== src/Schema/Definitions/Lengths.antt =====
-- How many tokens the parsers of declarations leave.
use graphql.Prelude.{
  ℕ, zero, suc, ◌<◌, ◌≤◌, ◌≢◌, ap, Bool, List, arith, length, length-rest, String, [], ◌∷◌,
}
use graphql.Prelude.Result.{Ensures, holds, stopped, Ensures-bind, Ensures-map, Ensures-if}
use graphql.Lexer.Token.{TokenKind, eof, char}
use graphql.Lexer.Parser.{
  Tokens, Parser, at, advance, consume_token, consume_ident, consume_description, GoLibrary,
  peek_keyword, consume_keyword,
}
use graphql.Lexer.Laws.{consume_token-Ensures, consume_ident-Ensures}
use graphql.Lexer.Loop.{until}
use graphql.Schema.Types.Parse.{parse_type}
use graphql.Schema.Types.Sound.{parse_type-Ensures, length-SpellsType_pos}
use graphql.Schema.Values.Parse.{parse_directives, parse_input_value}
use graphql.Schema.Values.Sound.{
  description-Ensures, parse_directives-Ensures, parse_input_value-Ensures,
}
use graphql.Schema.Definitions.Parse.{
  parse_args_def, parse_field_def, parse_fields_def, parse_field_block, skip_amp,
  parse_interfaces_loop, parse_interfaces, parse_bar_names,
}

-- The run leaves fewer tokens than it finds, or at least no more.
abbrev pub Shrinks {ℓ} : {A : Type ℓ} → Tokens → A × Tokens → Type 0
Shrinks ts r = length r.1 < length ts

abbrev pub NoLonger {ℓ} : {A : Type ℓ} → Tokens → A × Tokens → Type 0
NoLonger ts r = length r.1 ≤ length ts

pub consume_token-Shrinks :
    (k : TokenKind) (ts : Tokens) → k ≢ eof → Ensures (Shrinks ts) (consume_token k ts)
consume_token-Shrinks k ts h =
    Ensures-map (consume_token-Ensures k ts h) λ r (t, kt, e). omega (arith, ap length e)

pub consume_ident-Shrinks : (ts : Tokens) → Ensures (Shrinks ts) (consume_ident ts)
consume_ident-Shrinks ts =
    Ensures-map (consume_ident-Ensures ts) λ r (t, kt, e, s). omega (arith, ap length e)

pub consume_keyword-Shrinks :
    (keywords : List String) (ts : Tokens) → Ensures (Shrinks ts) (consume_keyword keywords ts)
unfolding consume_keyword
consume_keyword-Shrinks keywords [] = stopped
consume_keyword-Shrinks keywords (t ∷ ts) = Ensures-if _ stopped (holds (omega arith))

pub description-NoLonger :
    (go : GoLibrary) (skip : Bool) (ts : Tokens)
    → Ensures (NoLonger ts) (consume_description go skip ts)
description-NoLonger go skip ts =
    Ensures-map (description-Ensures go skip ts)
      λ r (ps, sp, e, l). omega (arith, length-rest ps r.1 e)

pub until-NoLonger {ℓ} :
    {A : Type ℓ} (close : TokenKind) (item : Parser A) (n : ℕ)
    → ((ts : Tokens) → length ts < n → Ensures (Shrinks ts) (item ts))
    → (f : ℕ) (ts : Tokens) → length ts < n
    → length ts < f
    → Ensures (NoLonger ts) (until f close item ts)
unfolding until
until-NoLonger close item n h zero ts b c = absurd (omega arith)
until-NoLonger close item n h (suc f) ts b c = Ensures-if (at close ts) (holds (omega arith)) (
    Ensures-bind (h ts b) λ (a, ts₁) l₁.
      Ensures-bind (until-NoLonger close item n h f ts₁ (omega arith) (omega arith))
        λ (items, ts₂) l₂. holds (omega arith))

length-advance : (ts : Tokens) → length (advance ts) ≤ length ts
length-advance [] = omega arith
length-advance (_ ∷ ts) = omega arith

module _ (go : GoLibrary) (skip : Bool) (f : ℕ) where
  pub directives-NoLonger :
      (ts : Tokens) → length ts < f → Ensures (NoLonger ts) (parse_directives go f ts)
  directives-NoLonger ts h =
      Ensures-map (parse_directives-Ensures go f ts h)
        λ r (ps, sp, e). omega (arith, length-rest ps r.1 e)

  pub input_value-Shrinks :
      (ts : Tokens) → length ts < f → Ensures (Shrinks ts) (parse_input_value go skip f ts)
  input_value-Shrinks ts h =
      Ensures-map (parse_input_value-Ensures go skip f ts h)
        λ r (ps, sp, pos, e). omega (arith, length-rest ps r.1 e)

  type-Shrinks : (ts : Tokens) → length ts < f → Ensures (Shrinks ts) (parse_type f ts)
  type-Shrinks ts h =
      Ensures-map (parse_type-Ensures f ts h)
        λ r (ps, sp, e). omega (arith, length-rest ps r.1 e, length-SpellsType_pos sp)

  pub args_def-NoLonger :
      (ts : Tokens) → length ts < f → Ensures (NoLonger ts) (parse_args_def go skip f ts)
  unfolding parse_args_def
  args_def-NoLonger ts h =
      Ensures-if (at (char b'(') ts)
        (Ensures-bind (consume_token-Shrinks (char b'(') ts (cc)) λ (_, ts₁) l₁.
          Ensures-bind
            (until-NoLonger (char b')') (parse_input_value go skip f) f input_value-Shrinks f ts₁
              (omega arith) (omega arith))
            λ (args, ts₂) l₂.
              Ensures-bind (consume_token-Shrinks (char b')') ts₂ (cc))
                λ (_, ts₃) l₃. holds (omega arith))
        (holds (omega arith))

  field_def-Shrinks :
      (ts : Tokens) → length ts < f → Ensures (Shrinks ts) (parse_field_def go skip f ts)
  unfolding parse_field_def
  field_def-Shrinks ts h = Ensures-bind (description-NoLonger go skip ts) λ (_, ts₁) l₁.
      Ensures-bind (consume_ident-Shrinks ts₁) λ (_, ts₂) l₂.
        Ensures-bind (args_def-NoLonger ts₂ (omega arith)) λ (_, ts₃) l₃.
          Ensures-bind (consume_token-Shrinks (char b':') ts₃ (cc)) λ (_, ts₄) l₄.
            Ensures-bind (type-Shrinks ts₄ (omega arith)) λ (_, ts₅) l₅.
              Ensures-bind (directives-NoLonger ts₅ (omega arith))
                λ (_, ts₆) l₆. holds (omega arith)

  -- A block in braces of items that shrink the input.
  pub block-Shrinks {ℓ} :
      {A : Type ℓ} (item : Parser A)
      → ((ts : Tokens) → length ts < f → Ensures (Shrinks ts) (item ts))
      → (ts : Tokens) → length ts < f
      → Ensures (NoLonger ts) (until f (char b'}') item ts)
  block-Shrinks item each ts h = until-NoLonger (char b'}') item f each f ts h h

  pub field_block-Shrinks :
      (ts : Tokens) → length ts < f → Ensures (Shrinks ts) (parse_field_block go skip f ts)
  unfolding parse_field_block parse_fields_def
  field_block-Shrinks ts h = Ensures-bind (consume_token-Shrinks (char b'{') ts (cc)) λ (_, ts₁) l₁.
      Ensures-bind (block-Shrinks (parse_field_def go skip f) field_def-Shrinks ts₁ (omega arith))
        λ (_, ts₂) l₂.
          Ensures-bind (consume_token-Shrinks (char b'}') ts₂ (cc))
            λ (_, ts₃) l₃. holds (omega arith)

  interfaces_loop-NoLonger :
      (n : ℕ) (ts : Tokens)
      → length ts < n
      → Ensures (NoLonger ts) (parse_interfaces_loop go skip f n ts)
  unfolding parse_interfaces_loop
  interfaces_loop-NoLonger zero ts h = absurd (omega arith)
  interfaces_loop-NoLonger (suc n) ts h = Ensures-bind (consume_ident-Shrinks ts) λ (_, ts₁) l₁.
      Ensures-bind {Post = NoLonger ts₁}
        (Ensures-if (at (char b'&') ts₁)
          (Ensures-bind (consume_token-Shrinks (char b'&') ts₁ (cc)) λ (_, ts₂) l₂.
            Ensures-map (interfaces_loop-NoLonger n ts₂ (omega arith)) λ r l₃. omega arith)
          (Ensures-if _ (holds (omega arith)) (interfaces_loop-NoLonger n ts₁ (omega arith))))
        λ (_, ts₄) l₄. holds (omega arith)

  pub interfaces-NoLonger :
      (ts : Tokens) → length ts < f → Ensures (NoLonger ts) (parse_interfaces go skip f ts)
  unfolding parse_interfaces skip_amp
  interfaces-NoLonger ts h =
      Ensures-if (peek_keyword "implements" ts)
        (Ensures-bind {Post = NoLonger (advance ts)}
          (Ensures-if (at (char b'&') (advance ts))
            (Ensures-map (consume_token-Shrinks (char b'&') (advance ts) (cc)) λ r l. omega arith)
            (holds (omega arith)))
          λ (_, ts₁) l₁.
            Ensures-map (interfaces_loop-NoLonger f ts₁ (omega (arith, length-advance ts)))
              λ r l₂. omega (arith, length-advance ts))
        (holds (omega arith))

  pub bar_names-NoLonger :
      (n : ℕ) (ts : Tokens) → length ts < n → Ensures (NoLonger ts) (parse_bar_names go skip f n ts)
  unfolding parse_bar_names
  bar_names-NoLonger zero ts h = absurd (omega arith)
  bar_names-NoLonger (suc n) ts h =
      Ensures-if (at (char b'|') ts)
        (Ensures-bind (consume_token-Shrinks (char b'|') ts (cc)) λ (_, ts₁) l₁.
          Ensures-bind (consume_ident-Shrinks ts₁) λ (_, ts₂) l₂.
            Ensures-bind (bar_names-NoLonger n ts₂ (omega arith))
              λ (_, ts₃) l₃. holds (omega arith))
        (holds (omega arith))

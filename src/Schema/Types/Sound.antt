-- ===== src/Schema/Types/Sound.antt =====
-- `ParseType` ends, and what it accepts is spelled by the grammar.
use graphql.Prelude.{
  ℕ, zero, suc, ◌<◌, ◌≡◌, refl, ap, [], ◌∷◌, ◌++◌, append_assoc, Bool-cases, inl, inr, arith,
  length, length-append,
}
use graphql.Prelude.Result.{Ensures, holds, Ensures-bind}
use graphql.Lexer.Token.{char}
use graphql.Lexer.Parser.{Tokens, Parser, at}
use graphql.Lexer.Laws.{consume_token-Ensures, consume_ident_with_loc-Ensures}
use graphql.Schema.Types.Parse.{
  SchemaType, parse_type_name, parse_null_type, parse_bang, parse_type,
}
use graphql.Schema.Types.Grammar.{SpellsType, SpellsNullType, nullable, bang, name, brackets}

-- The run reads tokens that spell its value, and leaves the rest.
abbrev pub ReadsType : Tokens → SchemaType × Tokens → Type 0
ReadsType ts r = (ps : Tokens) × SpellsType r.0 ps × (ts ≡ ps ++ r.1)

abbrev ReadsNullType : Tokens → SchemaType × Tokens → Type 0
ReadsNullType ts r = (ps : Tokens) × SpellsNullType r.0 ps × (ts ≡ ps ++ r.1)

parse_type_name-Ensures : (ts : Tokens) → Ensures (ReadsNullType ts) (parse_type_name ts)
unfolding parse_type_name
parse_type_name-Ensures ts =
    Ensures-bind (consume_ident_with_loc-Ensures ts)
      λ (v, rest) (t, k, e, same). holds (t ∷ [], rw same (name t k refl), e)

parse_null_type-Ensures :
    (p : Parser SchemaType) (n : ℕ)
    → ((ts : Tokens) → length ts < n → Ensures (ReadsType ts) (p ts))
    → (ts : Tokens) → length ts < suc n
    → Ensures (ReadsNullType ts) (parse_null_type p ts)
unfolding parse_null_type
parse_null_type-Ensures p n ih ts h = elim (Bool-cases (at (char b'[') ts)) [
  | inl e ↦ rw e (
      Ensures-bind (consume_token-Ensures (char b'[') ts (cc)) λ (_, ts₁) (l, kl, e₁).
        Ensures-bind (ih ts₁ (omega (arith, ap length e₁))) λ (t, ts₂) (ps, sp, e₂).
          Ensures-bind (consume_token-Ensures (char b']') ts₂ (cc)) λ (_, ts₃) (r, kr, e₃).
            holds (l ∷ (ps ++ r ∷ []), brackets l r sp kl kr refl, simp (e₁, e₂, e₃, append_assoc)))
  | inr e ↦ rw e (parse_type_name-Ensures ts)
]

parse_bang-Ensures :
    (t : SchemaType) (ps ts : Tokens)
    → SpellsNullType t ps
    → Ensures (λ r. (qs : Tokens) × SpellsType r.0 qs × (ps ++ ts ≡ qs ++ r.1)) (parse_bang t ts)
unfolding parse_bang
parse_bang-Ensures t ps ts sp = elim (Bool-cases (at (char b'!') ts)) [
  | inl e ↦ rw e (
      Ensures-bind (consume_token-Ensures (char b'!') ts (cc))
        λ (_, rest) (b, kb, e₁). holds (ps ++ b ∷ [], bang b sp kb refl, simp (e₁, append_assoc)))
  | inr e ↦ rw e (holds (ps, nullable sp, refl))
]

-- With more fuel than there are tokens, `ParseType` does not run out of it, and it fails or reads
-- tokens that spell the type that it returns, leaving the tokens behind them.
pub parse_type-Ensures :
    (f : ℕ) (ts : Tokens) → length ts < f → Ensures (ReadsType ts) (parse_type f ts)
unfolding parse_type
parse_type-Ensures zero ts h = absurd (omega arith)
parse_type-Ensures (suc f) ts h =
    Ensures-bind (parse_null_type-Ensures (parse_type f) f (parse_type-Ensures f) ts h)
      λ (t, ts₁) (ps, sp, e). rw e (parse_bang-Ensures t ps ts₁ sp)

mutual
  SpellsType-nonempty : {t : SchemaType} {ps : Tokens} → SpellsType t ps → 0 < length ps
  SpellsType-nonempty (nullable s) = SpellsNullType-nonempty s
  SpellsType-nonempty (bang {ps} b s k q) = omega (arith, ap length q, length-append ps (b ∷ []))

  SpellsNullType-nonempty : {t : SchemaType} {ps : Tokens} → SpellsNullType t ps → 0 < length ps
  SpellsNullType-nonempty (name n k q) = omega (arith, ap length q)
  SpellsNullType-nonempty (brackets l r s kl kr q) = omega (arith, ap length q)

-- A type is spelled by one token at least.
pub length-SpellsType_pos : {t : SchemaType} {ps : Tokens} → SpellsType t ps → 0 < length ps
length-SpellsType_pos = SpellsType-nonempty

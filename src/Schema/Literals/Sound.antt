-- ===== src/Schema/Literals/Sound.antt =====
-- `ParseLiteral` ends, and what it accepts is spelled by the grammar.
use graphql.Prelude.{
  ℕ, zero, suc, ◌<◌, ◌≡◌, refl, ap, Bool, true, false, List, [], ◌∷◌, ◌++◌, append_assoc,
  Bool-cases, inl, inr, arith, if◌then◌else◌, length,
}
use graphql.Prelude.Result.{Ensures, holds, stopped, Ensures-bind, Ensures-if}
use graphql.Lexer.Token.{Token, ident, char}
use graphql.Lexer.Parser.{Tokens, Parser, starts_literal, GoLibrary}
use graphql.Lexer.Laws.{
  consume_token-Ensures, consume_ident-Ensures, consume_ident_with_loc-Ensures,
  consume_literal-Ensures,
}
use graphql.Lexer.Loop.{until-Ensures}
use graphql.Schema.Literals.Parse.{
  Literal, null_lit, basic_lit, ObjectLitField, consume_basic_lit, parse_variable, parse_basic,
  parse_negative, parse_list, parse_field, parse_object, parse_literal,
}
use graphql.Schema.Literals.Grammar.{
  is_null, SpellsLiteral, SpellsLiterals, SpellsFields, null, basic, negative, var, entries, fields,
  no_entries, entry, no_fields, field,
}

module _ (go : GoLibrary) (const_only : Bool) where
  -- The run reads at least one token, those read spell its value, and it leaves the rest.
  abbrev pub ReadsLiteral : Tokens → Literal × Tokens → Type 0
  ReadsLiteral ts r =
      (ps : Tokens) × SpellsLiteral go const_only r.0 ps × (0 < length ps) × (ts ≡ ps ++ r.1)

consume_basic_lit-Ensures :
    (ts : Tokens)
    → Ensures
        (λ r.
          (t : Token) × (starts_literal t.kind ≡ true)
          × (ts ≡ t ∷ r.1)
          × (r.0 ≡ (t.kind, t.text, t.loc)))
        (consume_basic_lit ts)
unfolding consume_basic_lit
consume_basic_lit-Ensures ts =
    Ensures-bind (consume_literal-Ensures ts)
      λ (text, rest) (t, s, e, same). holds (t, s, e, simp (e, same))

module _ (go : GoLibrary) (const_only : Bool) where
  -- One field of an object.
  data SpellsField : ObjectLitField → Tokens → Type 0 where
    one :
        {v : Literal} {ps : Tokens} (n c : Token)
        → n.kind ≡ ident
        → c.kind ≡ char b':'
        → SpellsLiteral go const_only v ps
        → SpellsField (record { name = n.text; name_loc = n.loc; value = v }) (n ∷ c ∷ ps)

  SpellsFields-cons :
      (v : ObjectLitField) (vs : List ObjectLitField) (ps qs : Tokens)
      → SpellsField v ps
      → SpellsFields go const_only vs qs
      → SpellsFields go const_only (v ∷ vs) (ps ++ qs)
  SpellsFields-cons v vs ps qs (one n c kn kc s) t = field n c kn kc s t refl

module _ (go : GoLibrary) where
  parse_variable-Ensures :
      (const_only : Bool) (ts : Tokens)
      → Ensures (ReadsLiteral go const_only ts) (parse_variable const_only ts)
  unfolding parse_variable
  parse_variable-Ensures true ts = stopped
  parse_variable-Ensures false ts =
      Ensures-bind (consume_token-Ensures (char b'$') ts (cc)) λ (_, ts₁) (d, kd, e₁).
        Ensures-bind (consume_ident-Ensures ts₁) λ (name, ts₂) (n, kn, e₂, same).
          holds (d ∷ n ∷ [], simp (e₁, same) (var d n refl kd kn refl), omega arith, simp (e₁, e₂))

module _ (go : GoLibrary) (const_only : Bool) where
  basic_value-Spells :
      (t : Token)
      → starts_literal t.kind ≡ true
      → SpellsLiteral go const_only
          (if is_null t then null_lit t.loc else basic_lit t.kind t.text t.loc)
          (t ∷ [])
  basic_value-Spells t s = elim (Bool-cases (is_null t)) [
    | inl e ↦ rw e (null t s e refl)
    | inr e ↦ rw e (basic t s e refl)
  ]

  parse_basic-Ensures : (ts : Tokens) → Ensures (ReadsLiteral go const_only ts) (parse_basic ts)
  unfolding parse_basic
  parse_basic-Ensures ts = Ensures-bind (consume_basic_lit-Ensures ts) λ (v, rest) (t, s, e, same).
      holds (t ∷ [], simp (e, same) (basic_value-Spells t s), omega arith, e)

  parse_negative-Ensures :
      (ts : Tokens) → Ensures (ReadsLiteral go const_only ts) (parse_negative ts)
  unfolding parse_negative
  parse_negative-Ensures ts =
      Ensures-bind (consume_token-Ensures (char b'-') ts (cc)) λ (_, ts₁) (m, km, e₁).
        Ensures-bind (consume_basic_lit-Ensures ts₁) λ (v, ts₂) (t, s, e₂, same).
          holds (m ∷ t ∷ [], simp (e₁, same) (negative m t km s refl), omega arith, simp (e₁, e₂))

  module _ (f : ℕ) (value : Parser Literal)
      (ih : (ts : Tokens)
        → length ts < f
        → Ensures (ReadsLiteral go const_only ts) (value ts)) where
    parse_list-Ensures :
        (ts : Tokens)
        → length ts < suc f
        → Ensures (ReadsLiteral go const_only ts) (parse_list f value ts)
    unfolding parse_list
    parse_list-Ensures ts h =
        Ensures-bind (consume_token-Ensures (char b'[') ts (cc)) λ (_, ts₁) (l, kl, e₁).
          Ensures-bind
            (until-Ensures (SpellsLiteral go const_only) (SpellsLiterals go const_only) no_entries
              (λ v vs ps qs sv svs. entry sv svs refl) (char b']') value f f ih ts₁
              (omega (arith, ap length e₁)) (omega (arith, ap length e₁)))
            λ (vs, ts₂) (ps, sp, e₂, _).
              Ensures-bind (consume_token-Ensures (char b']') ts₂ (cc)) λ (_, ts₃) (r, kr, e₃).
                holds (
                  l ∷ (ps ++ r ∷ []),
                  simp e₁ (entries l r sp kl kr refl),
                  omega arith,
                  simp (e₁, e₂, e₃, append_assoc),
                )

    parse_field-Ensures :
        (ts : Tokens)
        → length ts < f
        → Ensures
            (λ r.
              (ps : Tokens) × SpellsField go const_only r.0 ps × (0 < length ps) × (ts ≡ ps ++ r.1))
            (parse_field value ts)
    unfolding parse_field
    parse_field-Ensures ts h =
        Ensures-bind (consume_ident_with_loc-Ensures ts) λ (nl, ts₁) (n, kn, e₁, same).
          Ensures-bind (consume_token-Ensures (char b':') ts₁ (cc)) λ (_, ts₂) (c, kc, e₂).
            Ensures-bind (ih ts₂ (omega (arith, ap length e₁, ap length e₂)))
              λ (v, ts₃) (ps, sp, pos, e₃).
                holds (n ∷ c ∷ ps, simp same (one n c kn kc sp), omega arith, simp (e₁, e₂, e₃))

    parse_object-Ensures :
        (ts : Tokens)
        → length ts < suc f
        → Ensures (ReadsLiteral go const_only ts) (parse_object go f value ts)
    unfolding parse_object
    parse_object-Ensures ts h =
        Ensures-bind (consume_token-Ensures (char b'{') ts (cc)) λ (_, ts₁) (l, kl, e₁).
          Ensures-bind
            (until-Ensures (SpellsField go const_only) (SpellsFields go const_only) no_fields
              (SpellsFields-cons go const_only) (char b'}') (parse_field value) f f
              parse_field-Ensures ts₁ (omega (arith, ap length e₁)) (omega (arith, ap length e₁)))
            λ (vs, ts₂) (ps, sp, e₂, _).
              Ensures-bind (consume_token-Ensures (char b'}') ts₂ (cc)) λ (_, ts₃) (r, kr, e₃).
                holds (
                  l ∷ (ps ++ r ∷ []),
                  simp e₁ (fields l r sp kl kr refl),
                  omega arith,
                  simp (e₁, e₂, e₃, append_assoc),
                )

-- With more fuel than there are tokens, `ParseLiteral` does not run out of it, and it fails or reads
-- at least one token: those that it reads spell the literal that it returns, with a variable only
-- where the caller allows one, and the tokens behind them are left.
pub parse_literal-Ensures :
    (go : GoLibrary) (f : ℕ) (const_only : Bool) (ts : Tokens)
    → length ts < f
    → Ensures (ReadsLiteral go const_only ts) (parse_literal go f const_only ts)
unfolding parse_literal
parse_literal-Ensures go zero const_only ts h = absurd (omega arith)
parse_literal-Ensures go (suc f) const_only ts h =
    Ensures-if _ (parse_variable-Ensures go const_only ts) (
      Ensures-if _ (parse_basic-Ensures go const_only ts) (
        Ensures-if _ (parse_negative-Ensures go const_only ts) (
          Ensures-if _
            (parse_list-Ensures go const_only f _ (parse_literal-Ensures go f const_only) ts h)
            (Ensures-if _
              (parse_object-Ensures go const_only f _ (parse_literal-Ensures go f const_only) ts h)
              stopped))))

-- ===== src/Schema/Values/Sound.antt =====
-- The parsers of arguments, directives and input values end, and what they accept is spelled by the
-- grammar.
use graphql.Prelude.{
  ℕ, zero, suc, ◌<◌, ◌≡◌, refl, ap, String, Bool, true, false, [], ◌∷◌, ◌++◌, append_assoc,
  Bool-cases, Option-cases, inl, inr, some, arith, length, length-append, length-rest, ◌∙◌,
}
use graphql.Prelude.Result.{Ensures, holds, stopped, Ensures-bind}
use graphql.Qerrors.{Location}
use graphql.Lexer.Token.{Token, string, block_string, char, same_kind, same_kind→≡}
use graphql.Lexer.Parser.{
  Tokens, at, location, located, GoLibrary, Description, describe, consume_token, consume_string,
  consume_description, block_text, show_block,
}
use graphql.Lexer.Laws.{consume_token-Ensures, consume_token-cons, consume_ident_with_loc-Ensures}
use graphql.Lexer.Loop.{until-SpellsEach, no_items, item}
use graphql.Schema.Types.Parse.{parse_type}
use graphql.Schema.Types.Grammar.{SpellsType}
use graphql.Schema.Types.Sound.{parse_type-Ensures, length-SpellsType_pos}
use graphql.Schema.Literals.Sound.{parse_literal-Ensures}
use graphql.Schema.Values.Parse.{
  parse_argument, parse_arguments, parse_optional_arguments, parse_directive, parse_directives_loop,
  parse_directives, parse_default, parse_input_value,
}
use graphql.Schema.Values.Grammar.{
  SpellsArgument, SpellsArguments, SpellsDirective, SpellsDirectives, SpellsDescription,
  SpellsDefault, SpellsInputValue, argument, no_arguments, arguments, directive, absent, skipped,
  quoted, block, no_default, default, input_value,
}

-- The run reads tokens that spell its value, and leaves the rest.
abbrev pub Reads {ℓ} : {A : Type ℓ} → (A → Tokens → Type 0) → Tokens → A × Tokens → Type 0
Reads Spells ts r = (ps : Tokens) × Spells r.0 ps × (ts ≡ ps ++ r.1)

-- It reads at least one.
abbrev pub ReadsSome {ℓ} : {A : Type ℓ} → (A → Tokens → Type 0) → Tokens → A × Tokens → Type 0
ReadsSome Spells ts r = (ps : Tokens) × Spells r.0 ps × (0 < length ps) × (ts ≡ ps ++ r.1)

module _ (go : GoLibrary) (f : ℕ) where
  pub parse_argument-Ensures :
      (ts : Tokens)
      → length ts < f
      → Ensures (ReadsSome (SpellsArgument go) ts) (parse_argument go f ts)
  unfolding parse_argument
  parse_argument-Ensures ts h =
      Ensures-bind (consume_ident_with_loc-Ensures ts) λ (nl, ts₁) (n, kn, e₁, same).
        Ensures-bind (consume_token-Ensures (char b':') ts₁ (cc)) λ (_, ts₂) (c, kc, e₂).
          Ensures-bind
            (parse_literal-Ensures go f false ts₂ (omega (arith, ap length e₁, ap length e₂)))
            λ (v, ts₃) (ps, sp, _, e₃).
              holds (n ∷ c ∷ ps, simp same (argument n c kn kc sp), omega arith, simp (e₁, e₂, e₃))

  pub parse_optional_arguments-Ensures :
      (ts : Tokens)
      → length ts < f
      → Ensures (Reads (SpellsArguments go) ts) (parse_optional_arguments go f ts)
  unfolding parse_optional_arguments parse_arguments
  parse_optional_arguments-Ensures ts h = elim (Bool-cases (at (char b'(') ts)) [
    | inl e ↦ rw e (
        Ensures-bind (consume_token-Ensures (char b'(') ts (cc)) λ (_, ts₁) (l, kl, e₁).
          Ensures-bind
            (until-SpellsEach (SpellsArgument go) (char b')') (parse_argument go f) f f
              parse_argument-Ensures ts₁ (omega (arith, ap length e₁))
              (omega (arith, ap length e₁)))
            λ (args, ts₂) (ps, sp, e₂, _).
              Ensures-bind (consume_token-Ensures (char b')') ts₂ (cc)) λ (_, ts₃) (r, kr, e₃).
                holds (l ∷ (ps ++ r ∷ []), arguments l r kl kr sp, simp (e₁, e₂, e₃, append_assoc)))
    | inr e ↦ rw e (holds ([], no_arguments, refl))
  ]

  pub parse_directive-Ensures :
      (ts : Tokens)
      → length ts < f
      → Ensures (ReadsSome (SpellsDirective go) ts) (parse_directive go f ts)
  unfolding parse_directive
  parse_directive-Ensures ts h =
      Ensures-bind (consume_token-Ensures (char b'@') ts (cc)) λ (_, ts₁) (a, ka, e₁).
        Ensures-bind (consume_ident_with_loc-Ensures ts₁) λ (nl, ts₂) (n, kn, e₂, same).
          Ensures-bind
            (parse_optional_arguments-Ensures ts₂ (omega (arith, ap length e₁, ap length e₂)))
            λ (args, ts₃) (ps, sp, e₃).
              holds (a ∷ n ∷ ps, simp same (directive a n ka kn sp), omega arith, simp (e₁, e₂, e₃))

  parse_directives_loop-Ensures :
      (n : ℕ) (ts : Tokens)
      → length ts < f
      → length ts < n
      → Ensures (Reads (SpellsDirectives go) ts) (parse_directives_loop go f n ts)
  unfolding parse_directives_loop
  parse_directives_loop-Ensures zero ts h b = absurd (omega arith)
  parse_directives_loop-Ensures (suc n) ts h b = elim (Bool-cases (at (char b'@') ts)) [
    | inr e ↦ rw e (holds ([], no_items, refl))
    | inl e ↦ rw e (
        Ensures-bind (parse_directive-Ensures ts h) λ (d, ts₁) (ps, sp, pos, e₁).
          Ensures-bind
            (parse_directives_loop-Ensures n ts₁ (omega (arith, ap length e₁, length-append ps ts₁))
              (omega (arith, ap length e₁, length-append ps ts₁)))
            λ (ds, ts₂) (qs, sq, e₂).
              holds (ps ++ qs, item sp sq refl, simp (e₁, e₂, append_assoc)))
  ]

  pub parse_directives-Ensures :
      (ts : Tokens)
      → length ts < f
      → Ensures (Reads (SpellsDirectives go) ts) (parse_directives go f ts)
  unfolding parse_directives
  parse_directives-Ensures ts h = parse_directives_loop-Ensures f ts h h

  parse_default-Ensures :
      (ts : Tokens) → length ts < f → Ensures (Reads (SpellsDefault go) ts) (parse_default go f ts)
  unfolding parse_default
  parse_default-Ensures ts h = elim (Bool-cases (at (char b'=') ts)) [
    | inl e ↦ rw e (
        Ensures-bind (consume_token-Ensures (char b'=') ts (cc)) λ (_, ts₁) (t, kt, e₁).
          Ensures-bind (parse_literal-Ensures go f true ts₁ (omega (arith, ap length e₁)))
            λ (v, ts₂) (ps, sp, _, e₂). holds (t ∷ ps, default t kt sp, simp (e₁, e₂)))
    | inr e ↦ rw e (holds ([], no_default, refl))
  ]

-- A spelling that is not empty begins where the input begins.
pub location-append : (ps rest : Tokens) → 0 < length ps → location (ps ++ rest) ≡ location ps
location-append [] rest h = absurd (omega arith)
location-append (p ∷ ps) rest h = refl

module _ (go : GoLibrary) where
  abbrev pub ReadsDescription : Bool → Tokens → Description × Tokens → Type 0
  ReadsDescription skip ts r =
      (ps : Tokens) × SpellsDescription go skip r.0 ps × (ts ≡ ps ++ r.1) × (r.0.loc ≡ location ts)

  consume_string-Ensures :
      (t : Token) (ts : Tokens)
      → t.kind ≡ string
      → Ensures (λ r. (go.unquote t.text ≡ some r.0) × (r.1 ≡ ts)) (consume_string go (t ∷ ts))
  unfolding consume_string
  consume_string-Ensures t ts k = elim (Option-cases (go.unquote t.text)) [
    | inl bad ↦ rw (bad, consume_string) stopped
    | inr (text, good) ↦
        rw (good, consume_string, consume_token-cons string t ts k) (holds (refl, refl))
  ]

  block_at :
      (t : Token) (ts : Tokens)
      → t.kind ≡ block_string
      → SpellsDescription go false (describe show_block (block_text go (t ∷ ts)) t.loc) (t ∷ [])
  unfolding block_text
  block_at t ts k = block t refl k

  pub description-Ensures :
      (skip : Bool) (ts : Tokens)
      → Ensures (ReadsDescription skip ts) (consume_description go skip ts)
  unfolding consume_description consume_token
  description-Ensures skip [] = holds ([], absent _, refl, refl)
  description-Ensures true (t ∷ ts) = elim (Bool-cases (same_kind t.kind string)) [
    | inl e ↦ rw e (holds (t ∷ [], skipped t refl (inl (same_kind→≡ _ _ e)), refl, refl))
    | inr e ↦ rw e (elim (Bool-cases (same_kind t.kind block_string)) [
      | inl b ↦ rw b (holds (t ∷ [], skipped t refl (inr (same_kind→≡ _ _ b)), refl, refl))
      | inr b ↦ rw b (holds ([], absent _, refl, refl))
    ])
  ]
  description-Ensures false (t ∷ ts) = elim (Bool-cases (same_kind t.kind string)) [
    | inl e ↦ rw e (
        Ensures-bind (consume_string-Ensures t ts (same_kind→≡ _ _ e)) λ (text, rest) (good, same).
          holds (t ∷ [], quoted t text refl (same_kind→≡ _ _ e) good, simp same, refl))
    | inr e ↦ rw e (elim (Bool-cases (same_kind t.kind block_string)) [
      | inl b ↦ rw b (holds (t ∷ [], block_at t ts (same_kind→≡ _ _ b), refl, refl))
      | inr b ↦ rw b (holds ([], absent _, refl, refl))
    ])
  ]

  located_type-Ensures :
      (f : ℕ) (ts : Tokens)
      → length ts < f
      → Ensures
          (λ r. (qs : Tokens) × SpellsType r.0.0 qs × (r.0.1 ≡ location qs) × (ts ≡ qs ++ r.1))
          (located (parse_type f) ts)
  located_type-Ensures f ts h = Ensures-bind (parse_type-Ensures f ts h) λ (t, rest) (qs, sq, e).
      holds (qs, sq, rw e (location-append qs rest (length-SpellsType_pos sq)), e)

  pub parse_input_value-Ensures :
      (skip : Bool) (f : ℕ) (ts : Tokens)
      → length ts < f
      → Ensures (ReadsSome (SpellsInputValue go skip) ts) (parse_input_value go skip f ts)
  unfolding parse_input_value
  parse_input_value-Ensures skip f ts h =
      Ensures-bind (description-Ensures skip ts) λ (desc, ts₁) (ps, sp, e₁, at_start).
        Ensures-bind (consume_ident_with_loc-Ensures ts₁) λ (nl, ts₂) (n, kn, e₂, same).
          Ensures-bind (consume_token-Ensures (char b':') ts₂ (cc)) λ (_, ts₃) (c, kc, e₃).
            let h₃ : length ts₃ < f =
              omega (arith, length-rest ps ts₁ e₁, ap length e₂, ap length e₃) in
            Ensures-bind (located_type-Ensures f ts₃ h₃) λ (tl, ts₄) (qs, sq, loc, e₄).
              let h₄ : length ts₄ < f = omega (arith, length-rest qs ts₄ e₄) in
              Ensures-bind (parse_default-Ensures go f ts₄ h₄) λ (v, ts₅) (ss, st, e₅).
                let h₅ : length ts₅ < f = omega (arith, length-rest ss ts₅ e₅) in
                Ensures-bind (parse_directives-Ensures go f ts₅ h₅) λ (ds, ts₆) (us, su, e₆).
                  let whole = ps ++ (n ∷ c ∷ (qs ++ (ss ++ us))) in
                  let e : ts ≡ whole ++ ts₆ = simp (e₁, e₂, e₃, e₄, e₅, e₆, append_assoc) in
                  let pos : 0 < length whole =
                    omega (arith, length-append ps (n ∷ c ∷ (qs ++ (ss ++ us)))) in
                  let start : location ts ≡ location whole = rw e (location-append whole ts₆ pos) in
                  holds (
                    whole,
                    input_value n c sp kn kc sq st su refl
                        (
                          ap (λ (x : String × Location). x.0) same,
                          ap (λ (x : String × Location). x.1) same,
                          loc,
                        )
                        (start, at_start ∙ start),
                    pos,
                    e,
                  )

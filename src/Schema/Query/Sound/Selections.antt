-- ===== src/Schema/Query/Sound/Selections.antt =====
-- `parseSelection` and `parseSelectionSet`.
use graphql.Prelude.{
  ℕ, zero, suc, ◌<◌, String, ◌≡◌, refl, ap, [], ◌∷◌, ◌++◌, append_assoc, Bool-cases, inl, inr,
  arith, length, length-rest, ◌==◌,
}
use graphql.Prelude.Result.{Ensures, holds, Ensures-bind, Ensures-map, Ensures-if}
use graphql.Qerrors.{Location}
use graphql.Lexer.Token.{Token, ident, char}
use graphql.Lexer.Parser.{Tokens, Parser, at, location, GoLibrary}
use graphql.Lexer.Laws.{consume_token-Ensures, consume_ident_with_loc-Ensures}
use graphql.Lexer.Loop.{until-Ensures}
use graphql.Schema.Values.Sound.{
  ReadsSome, parse_optional_arguments-Ensures, parse_directives-Ensures, location-append,
}
use graphql.Schema.Query.Parse.{
  TypeName, no_type_name, Selection, Selections, to_selections, parse_on, parse_selection_set,
  parse_optional_set, parse_name, parse_field, parse_inline, parse_fragment_spread,
  parse_named_spread, parse_spread_end, parse_spread, parse_selection,
}
use graphql.Schema.Query.Grammar.{
  SpellsName, no_alias, aliased, SpellsCondition, unconditional, on, SpellsSelection, a_field,
  spread, inline, SpellsSelections, nothing, a_selection, SpellsSelectionSet, braces,
  SpellsOptionalSet, no_set, a_set,
}

parse_name-Ensures :
    (alias : String) (ts : Tokens)
    → Ensures
        (λ r. (ps : Tokens) × SpellsName alias r.0.0 r.0.1 ps × (ts ≡ ps ++ r.1))
        (parse_name alias ts)
unfolding parse_name
parse_name-Ensures alias ts = elim (Bool-cases (at (char b':') ts)) [
  | inl e ↦ rw e (
      Ensures-bind (consume_token-Ensures (char b':') ts (cc)) λ (_, ts₁) (c, kc, e₁).
        Ensures-map (consume_ident_with_loc-Ensures ts₁)
          λ r (n, kn, e₂, same). (c ∷ n ∷ [], simp same (aliased c n kc kn), simp (e₁, e₂)))
  | inr e ↦ rw e (holds ([], no_alias, refl))
]

pub parse_on-Ensures :
    (ts : Tokens)
    → Ensures
        (λ r.
          (n : Token) × (n.kind ≡ ident)
          × (r.0 ≡ record { name = n.text; name_loc = n.loc })
          × (ts ≡ n ∷ r.1))
        (parse_on ts)
unfolding parse_on
parse_on-Ensures ts =
    Ensures-bind (consume_ident_with_loc-Ensures ts)
      λ (nl, rest) (n, kn, e, same). holds (n, kn, simp same, e)

length-SpellsSelectionSet_pos :
    (go : GoLibrary) {ss : Selections} {ps : Tokens} → SpellsSelectionSet go ss ps → 0 < length ps
length-SpellsSelectionSet_pos go (braces l r kl kr s q) = omega (arith, ap length q)

module _ (go : GoLibrary) (f : ℕ) (sel : Parser Selection)
    (ih : (ts : Tokens)
      → length ts < f
      → Ensures (ReadsSome (SpellsSelection go) ts) (sel ts)) where
  -- Given `parseSelection`, for a shorter input.
  pub parse_selection_set-Ensures_step :
      (ts : Tokens)
      → length ts < suc f
      → Ensures (ReadsSome (SpellsSelectionSet go) ts) (parse_selection_set f sel ts)
  unfolding parse_selection_set
  parse_selection_set-Ensures_step ts h =
      Ensures-bind (consume_token-Ensures (char b'{') ts (cc)) λ (_, ts₁) (l, kl, e₁).
        Ensures-bind
          (until-Ensures (SpellsSelection go) (λ ss ps. SpellsSelections go (to_selections ss) ps)
            nothing (λ s ss ps qs a b. a_selection a b refl) (char b'}') sel f f ih ts₁
            (omega (arith, ap length e₁)) (omega (arith, ap length e₁)))
          λ (ss, ts₂) (ps, sp, e₂, _).
            Ensures-bind (consume_token-Ensures (char b'}') ts₂ (cc)) λ (_, ts₃) (r, kr, e₃).
              holds (
                l ∷ (ps ++ r ∷ []),
                braces l r kl kr sp refl,
                omega arith,
                simp (e₁, e₂, e₃, append_assoc),
              )

  parse_optional_set-Ensures :
      (ts : Tokens)
      → length ts < suc f
      → Ensures
          (λ r. (ps : Tokens) × SpellsOptionalSet go r.0.0 r.0.1 ps × (ts ≡ ps ++ r.1))
          (parse_optional_set f sel ts)
  unfolding parse_optional_set
  parse_optional_set-Ensures ts h = elim (Bool-cases (at (char b'{') ts)) [
    | inl e ↦ rw e (
        Ensures-bind (parse_selection_set-Ensures_step ts h) λ (ss, rest) (ps, sp, pos, e₁).
          holds (ps, rw (e₁, location-append ps rest pos) (a_set sp), e₁))
    | inr e ↦ rw e (holds ([], no_set, refl))
  ]

  parse_field-Ensures :
      (ts : Tokens)
      → length ts < suc f
      → Ensures (ReadsSome (SpellsSelection go) ts) (parse_field go f sel ts)
  unfolding parse_field
  parse_field-Ensures ts h =
      Ensures-bind (consume_ident_with_loc-Ensures ts) λ (al, ts₁) (a, ka, e₁, same).
        Ensures-bind (parse_name-Ensures al.0 ts₁) λ (nl, ts₂) (ns, sn, e₂).
          let h₂ : length ts₂ < f = omega (arith, ap length e₁, length-rest ns ts₂ e₂) in
          Ensures-bind (parse_optional_arguments-Ensures go f ts₂ h₂) λ (args, ts₃) (ar, sa, e₃).
            let h₃ : length ts₃ < f = omega (arith, length-rest ar ts₃ e₃) in
            Ensures-bind (parse_directives-Ensures go f ts₃ h₃) λ (dl, ts₄) (ds, sd, e₄).
              let h₄ : length ts₄ < suc f = omega (arith, length-rest ds ts₄ e₄) in
              Ensures-bind (parse_optional_set-Ensures ts₄ h₄) λ (ss, ts₅) (sets, st, e₅). holds (
                a ∷ (ns ++ (ar ++ (ds ++ sets))),
                a_field a ka
                    (
                      ap (λ (x : String × Location). x.0) same,
                      ap (λ (x : String × Location). x.1) same,
                    )
                    (simp same at sn) sa sd st refl,
                omega arith,
                simp (e₁, e₂, e₃, e₄, e₅, append_assoc),
              )

  -- Behind the three dots.
  abbrev SpellsEnd : Location → Selection → Tokens → Type 0
  SpellsEnd loc s ps =
      (d₁ d₂ d₃ : Token)
      → (d₁.kind ≡ char b'.') × (d₂.kind ≡ char b'.') × (d₃.kind ≡ char b'.')
      → d₁.loc ≡ loc
      → SpellsSelection go s (d₁ ∷ d₂ ∷ d₃ ∷ ps)

  parse_inline-Ensures :
      (t : TypeName) (cs : Tokens) (loc : Location) (ts : Tokens)
      → length ts < f
      → SpellsCondition t cs
      → Ensures
          (λ r. (ps : Tokens) × SpellsEnd loc r.0 (cs ++ ps) × (ts ≡ ps ++ r.1))
          (parse_inline go f sel t loc ts)
  unfolding parse_inline
  parse_inline-Ensures t cs loc ts h c =
      Ensures-bind (parse_directives-Ensures go f ts h) λ (dl, ts₁) (ds, sd, e₁).
        let h₁ : length ts₁ < suc f = omega (arith, length-rest ds ts₁ e₁) in
        Ensures-bind (parse_selection_set-Ensures_step ts₁ h₁) λ (ss, ts₂) (sets, st, _, e₂).
          holds (
            ds ++ sets,
            λ d₁ d₂ d₃ dots e. rw (← e) (inline d₁ d₂ d₃ dots c sd st refl),
            simp (e₁, e₂, append_assoc),
          )

  parse_spread_end-Ensures :
      (loc : Location) (ts : Tokens)
      → length ts < f
      → Ensures
          (λ r. (ps : Tokens) × SpellsEnd loc r.0 ps × (ts ≡ ps ++ r.1))
          (parse_spread_end go f sel loc ts)
  unfolding parse_spread_end parse_named_spread parse_fragment_spread
  parse_spread_end-Ensures loc ts h = elim (Bool-cases (at ident ts)) [
    | inr e ↦ rw e (parse_inline-Ensures no_type_name [] loc ts h unconditional)
    | inl e ↦ rw e (
        Ensures-bind (consume_ident_with_loc-Ensures ts) λ (nl, ts₁) (n, kn, e₁, same).
          rw same (elim (Bool-cases (n.text == "on")) [
            | inl o ↦ rw o (
                Ensures-bind (parse_on-Ensures ts₁) λ (t, ts₂) (m, km, e₂, e₃).
                  Ensures-map
                    (parse_inline-Ensures t (n ∷ m ∷ []) loc ts₂
                      (omega (arith, ap length e₁, ap length e₃)) (rw e₂ (on n m kn o km)))
                    λ r (ps, sp, e₄). (n ∷ m ∷ ps, sp, simp (e₁, e₃, e₄)))
            | inr o ↦ rw o (
                Ensures-bind (parse_directives-Ensures go f ts₁ (omega (arith, ap length e₁)))
                  λ (dl, ts₂) (ds, sd, e₂). holds (
                    n ∷ ds,
                    λ d₁ d₂ d₃ dots e. rw (← e) (spread d₁ d₂ d₃ n dots kn o sd refl),
                    simp (e₁, e₂),
                  ))
          ]))
  ]

  parse_spread-Ensures :
      (ts : Tokens)
      → length ts < suc f
      → Ensures (ReadsSome (SpellsSelection go) ts) (parse_spread go f sel ts)
  unfolding parse_spread
  parse_spread-Ensures ts h =
      Ensures-bind (consume_token-Ensures (char b'.') ts (cc)) λ (_, ts₁) (d₁, k₁, e₁).
        Ensures-bind (consume_token-Ensures (char b'.') ts₁ (cc)) λ (_, ts₂) (d₂, k₂, e₂).
          Ensures-bind (consume_token-Ensures (char b'.') ts₂ (cc)) λ (_, ts₃) (d₃, k₃, e₃).
            Ensures-map
              (parse_spread_end-Ensures (location ts) ts₃
                (omega (arith, ap length e₁, ap length e₂, ap length e₃)))
              λ r (ps, sp, e₄). (
                d₁ ∷ d₂ ∷ d₃ ∷ ps,
                sp d₁ d₂ d₃ (k₁, k₂, k₃) (rw e₁ refl),
                omega arith,
                simp (e₁, e₂, e₃, e₄),
              )

module _ (go : GoLibrary) where
  -- With more fuel than there are tokens, `parseSelection` does not run out of it, and it fails or
  -- reads tokens that spell the selection that it returns, leaving the tokens behind them.
  pub parse_selection-Ensures :
      (f : ℕ) (ts : Tokens)
      → length ts < f
      → Ensures (ReadsSome (SpellsSelection go) ts) (parse_selection go f ts)
  unfolding parse_selection
  parse_selection-Ensures zero ts h = absurd (omega arith)
  parse_selection-Ensures (suc f) ts h =
      Ensures-if _ (parse_spread-Ensures go f _ (parse_selection-Ensures f) ts h)
        (parse_field-Ensures go f _ (parse_selection-Ensures f) ts h)

  pub parse_selection_set-Ensures :
      (f : ℕ) (ts : Tokens)
      → length ts < f
      → Ensures
          (ReadsSome (SpellsSelectionSet go) ts)
          (parse_selection_set f (parse_selection go f) ts)
  parse_selection_set-Ensures f ts h =
      parse_selection_set-Ensures_step go f (parse_selection go f) (parse_selection-Ensures f) ts
        (omega arith)

-- ===== src/Schema/Query/Sound/Document.antt =====
-- Operations, fragments and `parseDocument`.
use graphql.Prelude.{
  ℕ, zero, suc, ◌<◌, String, Bool, ◌≡◌, refl, sym, ap, ◌∙◌, true, [], ◌∷◌, ◌++◌, append_assoc,
  Bool-cases, inl, inr, arith, length, length-append, length-rest, ◌==◌, ==_iff,
}
use graphql.Prelude.Result.{
  Ensures, holds, stopped, Ensures-bind, Ensures-map, Ensures-if, Ensures-if_true,
}
use graphql.Qerrors.{Location}
use graphql.Lexer.Token.{Token, eof, ident, char}
use graphql.Lexer.Parser.{Tokens, at, location, GoLibrary}
use graphql.Lexer.Laws.{
  consume_token-Ensures, consume_ident-Ensures, consume_ident_with_loc-Ensures,
  consume_keyword-Ensures,
}
use graphql.Lexer.Loop.{until-SpellsEach}
use graphql.Schema.Values.Sound.{
  Reads, ReadsSome, parse_directives-Ensures, parse_input_value-Ensures, location-append,
}
use graphql.Schema.Query.Parse.{
  OperationType, query, mutation, subscription, QueryDocument, parse_var, parse_vars,
  parse_operation_name, parse_operation, parse_fragment, parse_anonymous, parse_keyword,
  parse_definition, parse_document, parse, add_operation, no_document,
}
use graphql.Schema.Query.Grammar.{
  SpellsOptionalName, anonymous, called, SpellsVar, var, SpellsVars, no_vars, vars, SpellsOperation,
  operation, SpellsFragment, fragment, SpellsDefinition, shorthand, a_query, a_mutation,
  a_subscription, a_fragment, SpellsDocument, no_definitions, definition,
}
use graphql.Schema.Query.Sound.Selections.{parse_on-Ensures, parse_selection_set-Ensures}

parse_operation_name-Ensures :
    (ts : Tokens)
    → Ensures
        (λ r. (ps : Tokens) × SpellsOptionalName r.0.0 r.0.1 ps × (ts ≡ ps ++ r.1))
        (parse_operation_name ts)
unfolding parse_operation_name
parse_operation_name-Ensures ts = elim (Bool-cases (at ident ts)) [
  | inl e ↦ rw e (
      Ensures-map (consume_ident_with_loc-Ensures ts)
        λ r (n, kn, e₁, same). (n ∷ [], simp same (called n kn), e₁))
  | inr e ↦ rw e (holds ([], anonymous, refl))
]

module _ (go : GoLibrary) (skip : Bool) (f : ℕ) where
  parse_var-Ensures :
      (ts : Tokens)
      → length ts < f
      → Ensures (ReadsSome (SpellsVar go skip) ts) (parse_var go skip f ts)
  unfolding parse_var
  parse_var-Ensures ts h =
      Ensures-bind (consume_token-Ensures (char b'$') ts (cc)) λ (_, ts₁) (d, kd, e₁).
        Ensures-bind (parse_input_value-Ensures go skip f ts₁ (omega (arith, ap length e₁)))
          λ (v, ts₂) (ps, sp, _, e₂).
            holds (d ∷ ps, simp e₁ (var d kd sp), omega arith, simp (e₁, e₂))

  parse_vars-Ensures :
      (ts : Tokens)
      → length ts < f
      → Ensures (Reads (SpellsVars go skip) ts) (parse_vars go skip f ts)
  unfolding parse_vars
  parse_vars-Ensures ts h = elim (Bool-cases (at (char b'(') ts)) [
    | inl e ↦ rw e (
        Ensures-bind (consume_token-Ensures (char b'(') ts (cc)) λ (_, ts₁) (l, kl, e₁).
          Ensures-bind
            (until-SpellsEach (SpellsVar go skip) (char b')') (parse_var go skip f) f f
              parse_var-Ensures ts₁ (omega (arith, ap length e₁)) (omega (arith, ap length e₁)))
            λ (vs, ts₂) (ps, sp, e₂, _).
              Ensures-bind (consume_token-Ensures (char b')') ts₂ (cc)) λ (_, ts₃) (r, kr, e₃).
                holds (l ∷ (ps ++ r ∷ []), vars l r kl kr sp, simp (e₁, e₂, e₃, append_assoc)))
    | inr e ↦ rw e (holds ([], no_vars, refl))
  ]

  parse_operation-Ensures :
      (type : OperationType) (ts : Tokens)
      → length ts < f
      → Ensures
          (λ r.
            (ps : Tokens) × SpellsOperation go skip r.0 ps × (r.0.type ≡ type) × (ts ≡ ps ++ r.1))
          (parse_operation go skip f type ts)
  unfolding parse_operation
  parse_operation-Ensures type ts h =
      Ensures-bind (parse_operation_name-Ensures ts) λ (nl, ts₁) (ns, sn, e₁).
        let h₁ : length ts₁ < f = omega (arith, length-rest ns ts₁ e₁) in
        Ensures-bind (parse_directives-Ensures go f ts₁ h₁) λ (dl, ts₂) (ds, sd, e₂).
          let h₂ : length ts₂ < f = omega (arith, length-rest ds ts₂ e₂) in
          Ensures-bind (parse_vars-Ensures ts₂ h₂) λ (vl, ts₃) (vs, sv, e₃).
            let h₃ : length ts₃ < f = omega (arith, length-rest vs ts₃ e₃) in
            Ensures-bind (parse_selection_set-Ensures go f ts₃ h₃) λ (ss, ts₄) (sets, st, pos, e₄).
              let whole = ns ++ (ds ++ (vs ++ sets)) in
              let e : ts ≡ whole ++ ts₄ = simp (e₁, e₂, e₃, e₄, append_assoc) in
              let some : 0 < length whole = omega (
                arith,
                length-append ns (ds ++ (vs ++ sets)),
                length-append ds (vs ++ sets),
                length-append vs sets,
              ) in
              holds
                (whole, operation sn sd sv st refl (rw e (location-append whole ts₄ some)), refl, e)

  parse_fragment-Ensures :
      (loc : Location) (ts : Tokens)
      → length ts < f
      → Ensures
          (λ r. (ps : Tokens) × SpellsFragment go r.0 ps × (r.0.loc ≡ loc) × (ts ≡ ps ++ r.1))
          (parse_fragment go f loc ts)
  unfolding parse_fragment
  parse_fragment-Ensures loc ts h =
      Ensures-bind (consume_ident_with_loc-Ensures ts) λ (nl, ts₁) (n, kn, e₁, same).
        Ensures-bind (consume_keyword-Ensures "on" ts₁) λ (_, ts₂) (k, kk, kt, e₂).
          Ensures-bind (parse_on-Ensures ts₂) λ (t, ts₃) (m, km, te, e₃).
            let h₃ : length ts₃ < f = omega (arith, ap length e₁, ap length e₂, ap length e₃) in
            Ensures-bind (parse_directives-Ensures go f ts₃ h₃) λ (dl, ts₄) (ds, sd, e₄).
              let h₄ : length ts₄ < f = omega (arith, length-rest ds ts₄ e₄) in
              Ensures-bind (parse_selection_set-Ensures go f ts₄ h₄) λ (ss, ts₅) (sets, st, _, e₅).
                holds (
                  n ∷ k ∷ m ∷ (ds ++ sets),
                  fragment n k m kn
                      (
                        ap (λ (x : String × Location). x.0) same,
                        ap (λ (x : String × Location). x.1) same,
                      )
                      (kk, kt, km) te sd st refl,
                  refl,
                  simp (e₁, e₂, e₃, e₄, e₅, append_assoc),
                )

module _ (go : GoLibrary) (skip : Bool) (f : ℕ) where
  -- Behind a keyword at the given position.
  SpellsKeyword : QueryDocument → String → Location → QueryDocument → Tokens → Type 0
  SpellsKeyword d x loc d' ps =
      (k : Token)
      → k.kind ≡ ident
      → k.text ≡ x
      → k.loc ≡ loc
      → SpellsDefinition go skip d d' (k ∷ ps)

  parse_keyword-Ensures :
      (d : QueryDocument) (x : String) (loc : Location) (ts : Tokens)
      → length ts < f
      → Ensures
          (λ r. (ps : Tokens) × SpellsKeyword d x loc r.0 ps × (ts ≡ ps ++ r.1))
          (parse_keyword go skip f d x loc ts)
  unfolding parse_keyword SpellsKeyword
  parse_keyword-Ensures d x loc ts h =
      Ensures-if_true (x == "query")
        (λ e.
          Ensures-bind (parse_operation-Ensures go skip f query ts h)
            λ (op, rest) (ps, sp, type, e₁).
              holds
                (ps, λ k kk kt kl. rw (← kl) (a_query k (kk, kt ∙ (==_iff _ _).0 e, type) sp), e₁))
        (Ensures-if_true (x == "mutation")
          (λ e.
            Ensures-bind (parse_operation-Ensures go skip f mutation ts h)
              λ (op, rest) (ps, sp, type, e₁).
                holds (ps, λ k kk kt kl. a_mutation k (kk, kt ∙ (==_iff _ _).0 e, type) sp, e₁))
          (Ensures-if_true (x == "subscription")
            (λ e.
              Ensures-bind (parse_operation-Ensures go skip f subscription ts h)
                λ (op, rest) (ps, sp, type, e₁).
                  holds
                    (ps, λ k kk kt kl. a_subscription k (kk, kt ∙ (==_iff _ _).0 e, type) sp, e₁))
            (Ensures-if_true (x == "fragment")
              (λ e.
                Ensures-bind (parse_fragment-Ensures go skip f loc ts h)
                  λ (frag, rest) (ps, sp, place, e₁). holds (
                    ps,
                    λ k kk kt kl. a_fragment k (kk, kt ∙ (==_iff _ _).0 e, place ∙ sym kl) sp,
                    e₁,
                  ))
              stopped)))

  parse_anonymous-Ensures :
      (d : QueryDocument) (ts : Tokens)
      → length ts < f
      → Ensures
          (λ r.
            (ps : Tokens) × SpellsDefinition go skip d (add_operation d r.0) ps
            × (0 < length ps)
            × (ts ≡ ps ++ r.1))
          (parse_anonymous go f ts)
  unfolding parse_anonymous
  parse_anonymous-Ensures d ts h =
      Ensures-bind (parse_selection_set-Ensures go f ts h) λ (ss, rest) (ps, sp, pos, e). holds (
        ps,
        shorthand sp (refl, refl, refl, refl) (refl, rw e (location-append ps rest pos)),
        pos,
        e,
      )

  parse_definition-Ensures :
      (d : QueryDocument) (ts : Tokens)
      → length ts < f
      → Ensures (ReadsSome (SpellsDefinition go skip d) ts) (parse_definition go skip f d ts)
  unfolding parse_definition SpellsKeyword
  parse_definition-Ensures d ts h =
      Ensures-if (at (char b'{') ts)
        (Ensures-bind (parse_anonymous-Ensures d ts h)
          λ (op, rest) (ps, sp, pos, e). holds (ps, sp, pos, e))
        (Ensures-bind (consume_ident-Ensures ts) λ (x, ts₁) (k, kk, e₁, same).
          Ensures-map (parse_keyword-Ensures d x (location ts) ts₁ (omega (arith, ap length e₁)))
            λ r (ps, sp, e₂). (k ∷ ps, sp k kk (sym same) (rw e₁ refl), omega arith, simp (e₁, e₂)))

  parse_document-Ensures :
      (n : ℕ) (d : QueryDocument) (ts : Tokens)
      → length ts < f
      → length ts < n
      → Ensures
          (λ r.
            (ps : Tokens) × SpellsDocument go skip d r.0 ps
            × (ts ≡ ps ++ r.1)
            × (at eof r.1 ≡ true))
          (parse_document go skip f n d ts)
  unfolding parse_document
  parse_document-Ensures zero d ts h b = absurd (omega arith)
  parse_document-Ensures (suc n) d ts h b = elim (Bool-cases (at eof ts)) [
    | inl e ↦ rw e (holds ([], no_definitions, refl, e))
    | inr e ↦ rw e (
        Ensures-bind (parse_definition-Ensures d ts h) λ (d', ts₁) (ps, sp, pos, e₁).
          let shorter = length-rest ps ts₁ e₁ in
          Ensures-map (parse_document-Ensures n d' ts₁ (omega arith) (omega arith))
            λ r (qs, sq, e₂, end).
              (ps ++ qs, definition sp sq refl, simp (e₁, e₂, append_assoc), end))
  ]

-- The tokens before the end of the input spell the document.
abbrev pub SpellsParsed : GoLibrary → Bool → Tokens → QueryDocument → Type 0
SpellsParsed go skip ts d =
    (ps rest : Tokens) × SpellsDocument go skip no_document d ps
    × (ts ≡ ps ++ rest)
    × (at eof rest ≡ true)

-- The parser of documents ends on every list of tokens: it returns a document or raises an error,
-- and does not run out of the fuel that `parse` gives it. If it returns a document, the tokens
-- before the end of the input are definitions, one after another, that spell this document.
pub parse-Ensures :
    (go : GoLibrary) (skip : Bool) (ts : Tokens)
    → Ensures (SpellsParsed go skip ts) (parse go skip ts)
unfolding parse
parse-Ensures go skip ts =
    Ensures-bind
      (parse_document-Ensures go skip (suc (length ts)) (suc (length ts)) no_document ts
        (omega arith) (omega arith))
      λ (d, rest) (ps, sp, e, end). holds (ps, rest, sp, e, end)

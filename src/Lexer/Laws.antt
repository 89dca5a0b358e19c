-- ===== src/Lexer/Laws.antt =====
-- What each method of the lexer reads off the stream.
use graphql.Prelude.{
  String, true, false, ◌==◌, ==_iff, ◌≡◌, refl, ◌≢◌, [], ◌∷◌, Bool-cases, inl, inr,
}
use graphql.Prelude.Result.{ok, Ensures, holds, stopped}
use graphql.Lexer.Token.{Token, TokenKind, ident, same_kind, same_kind→≡, same_kind_refl}
use graphql.Lexer.Parser.{
  Tokens, at, advance, consume_token, consume_ident, consume_ident_with_loc, starts_literal,
  consume_keyword, consume_literal,
}

-- One token of the kind, and the rest.
abbrev pub One : TokenKind → Tokens → Tokens → Type 0
One k ts rest = (t : Token) × (t.kind ≡ k) × (ts ≡ t ∷ rest)

pub at-One :
    (k : TokenKind) (ts : Tokens) → k ≢ TokenKind.eof → at k ts ≡ true → One k ts (advance ts)
at-One k [] h e = absurd (h (cc (same_kind→≡ TokenKind.eof k e)))
at-One k (t ∷ ts) h e = (t, same_kind→≡ t.kind k e, refl)

pub consume_token-Ensures :
    (k : TokenKind) (ts : Tokens)
    → k ≢ TokenKind.eof
    → Ensures (λ r. One k ts r.1) (consume_token k ts)
unfolding consume_token
consume_token-Ensures k ts h = elim (Bool-cases (at k ts)) [
  | inl e ↦ rw e (holds (at-One k ts h e))
  | inr e ↦ rw e stopped
]

pub consume_ident_with_loc-Ensures :
    (ts : Tokens)
    → Ensures
        (λ r. (t : Token) × (t.kind ≡ ident) × (ts ≡ t ∷ r.1) × (r.0 ≡ (t.text, t.loc)))
        (consume_ident_with_loc ts)
unfolding consume_ident_with_loc consume_token
consume_ident_with_loc-Ensures [] = stopped
consume_ident_with_loc-Ensures (t ∷ ts) = elim (Bool-cases (same_kind t.kind ident)) [
  | inl e ↦ rw e (holds (t, same_kind→≡ t.kind ident e, refl, refl))
  | inr e ↦ rw e stopped
]

pub consume_ident-Ensures :
    (ts : Tokens)
    → Ensures
        (λ r. (t : Token) × (t.kind ≡ ident) × (ts ≡ t ∷ r.1) × (r.0 ≡ t.text))
        (consume_ident ts)
unfolding consume_ident consume_token
consume_ident-Ensures [] = stopped
consume_ident-Ensures (t ∷ ts) = elim (Bool-cases (same_kind t.kind ident)) [
  | inl e ↦ rw e (holds (t, same_kind→≡ t.kind ident e, refl, refl))
  | inr e ↦ rw e stopped
]

pub consume_literal-Ensures :
    (ts : Tokens)
    → Ensures
        (λ r. (t : Token) × (starts_literal t.kind ≡ true) × (ts ≡ t ∷ r.1) × (r.0 ≡ t.text))
        (consume_literal ts)
unfolding consume_literal
consume_literal-Ensures [] = stopped
consume_literal-Ensures (t ∷ ts) = elim (Bool-cases (starts_literal t.kind)) [
  | inl e ↦ rw e (holds (t, e, refl, refl))
  | inr e ↦ rw e stopped
]

-- Tests on the current token, from its kind.
pub at-cons : (k : TokenKind) (t : Token) → t.kind ≡ k → same_kind t.kind k ≡ true
at-cons k t e = rw e (same_kind_refl k)

pub not_at-cons :
    (k j : TokenKind) (t : Token) → t.kind ≡ j → same_kind j k ≡ false → same_kind t.kind k ≡ false
not_at-cons k j t e h = rw e h

-- The method succeeds on a token of the kind.
pub consume_token-cons :
    (k : TokenKind) (t : Token) (ts : Tokens) → t.kind ≡ k → consume_token k (t ∷ ts) ≡ ok (tt, ts)
unfolding consume_token
consume_token-cons k t ts e = rw (at-cons k t e)

pub consume_ident_with_loc-cons :
    (t : Token) (ts : Tokens)
    → t.kind ≡ ident
    → consume_ident_with_loc (t ∷ ts) ≡ ok ((t.text, t.loc), ts)
unfolding consume_ident_with_loc
consume_ident_with_loc-cons t ts e = rw (consume_token-cons ident t ts e)

pub consume_ident-cons :
    (t : Token) (ts : Tokens) → t.kind ≡ ident → consume_ident (t ∷ ts) ≡ ok (t.text, ts)
unfolding consume_ident
consume_ident-cons t ts e = rw (consume_token-cons ident t ts e)

pub consume_literal-cons :
    (t : Token) (ts : Tokens)
    → starts_literal t.kind ≡ true
    → consume_literal (t ∷ ts) ≡ ok (t.text, ts)
unfolding consume_literal
consume_literal-cons t ts e = rw e

-- A keyword alone.
pub consume_keyword-Ensures :
    (keyword : String) (ts : Tokens)
    → Ensures
        (λ r. (t : Token) × (t.kind ≡ ident) × (t.text ≡ keyword) × (ts ≡ t ∷ r.1))
        (consume_keyword (keyword ∷ []) ts)
unfolding consume_keyword
consume_keyword-Ensures keyword [] = stopped
consume_keyword-Ensures keyword (t ∷ ts) = elim (Bool-cases (same_kind t.kind ident)) [
  | inr e ↦ rw e stopped
  | inl e ↦ elim (Bool-cases (t.text == keyword)) [
    | inl same ↦
        rw (e, same) (holds (t, same_kind→≡ t.kind ident e, (==_iff t.text keyword).0 same, refl))
    | inr other ↦ rw (e, other) stopped
  ]
]

-- ===== src/Lexer/Consume.antt =====
-- internal/lexer/lexer.go: `Get`, and `Consume`, the loop that passes over commas.
use graphql.Prelude.{
  Bool, true, false, ◌≡◌, refl, List, [], ◌∷◌, ◌++◌, if◌then◌else◌, Bool-cases, inl, inr,
}
use graphql.Lexer.Token.{Token, TokenKind, eof, char, same_kind}

-- The scanner's input is the list of the tokens that `Scan` still returns, and the end-of-input
-- token that it returns from then on.
pub record Scanner : Type 0 where
  pub tokens : List Token
  pub end : Token

-- `Lexer`: `next` with the text and position of the token that was scanned last.
pub record Lexer : Type 0 where
  pub sc : Scanner
  pub next : Token
  pub skip_descriptions : Bool

-- `Get`: a lexer that has scanned nothing; `next` is what an earlier use left in it.
unfoldable pub get : Token → Scanner → Lexer
get stale sc = record { sc = sc; next = stale; skip_descriptions = false }

-- `Lexer.Peek`.
abbrev pub peek : Lexer → TokenKind
peek l = l.next.kind

abbrev pub comma : TokenKind
comma = char b','

-- The loop of `Consume` over the tokens still to be scanned.
unfoldable pub scan_past_commas : List Token → Token → Bool → Lexer
scan_past_commas [] end skip = record {
  sc = record { tokens = []; end = end };
  next = end;
  skip_descriptions = skip;
}
scan_past_commas (t ∷ ts) end skip =
    let again = scan_past_commas ts end skip in
    if same_kind t.kind comma
    then again
    else record { sc = record { tokens = ts; end = end }; next = t; skip_descriptions = skip }

-- `Lexer.Consume`.
unfoldable pub consume : Lexer → Lexer
unfolding scan_past_commas
consume l = scan_past_commas l.sc.tokens l.sc.end l.skip_descriptions

-- The stream without its commas.
unfoldable pub significant : List Token → List Token
significant [] = []
significant (t ∷ ts) = if same_kind t.kind comma then significant ts else t ∷ significant ts

-- What a parser may still read: the current token, then the significant tokens and the end.
unfoldable pub ahead : Lexer → List Token
unfolding significant
ahead l =
    if same_kind l.next.kind eof
    then l.next ∷ []
    else l.next ∷ (significant l.sc.tokens ++ l.sc.end ∷ [])

-- `Scan` returns EOF at the end of the input and nowhere else.
abbrev pub NoEof : List Token → Type 0
NoEof [] = Unit {0}
NoEof (t ∷ ts) = (same_kind t.kind eof ≡ false) × NoEof ts

ahead-scan_past_commas :
    (ts : List Token) (end : Token) (skip : Bool)
    → NoEof ts
    → same_kind end.kind eof ≡ true
    → ahead (scan_past_commas ts end skip) ≡ significant ts ++ end ∷ []
unfolding ahead scan_past_commas significant
ahead-scan_past_commas [] end skip h e = rw e
ahead-scan_past_commas (t ∷ ts) end skip h e = elim (Bool-cases (same_kind t.kind comma)) [
  | inl c ↦ rw (c, scan_past_commas) (ahead-scan_past_commas ts end skip h.1 e)
  | inr c ↦ rw (c, scan_past_commas) (rw h.0 refl)
]

-- From a lexer whose current token is not the end, whose scanner returns the end-of-input token at
-- the end and nowhere else: what was ahead is the current token, and then what is ahead after
-- `Consume`. So `Consume` drops one token of the stream that has no commas.
pub ahead-consume :
    (l : Lexer)
    → NoEof l.sc.tokens
    → same_kind l.sc.end.kind eof ≡ true
    → same_kind l.next.kind eof ≡ false
    → ahead l ≡ l.next ∷ ahead (consume l)
unfolding ahead consume
ahead-consume l h e more =
    rw (more, ahead-scan_past_commas l.sc.tokens l.sc.end l.skip_descriptions h e)

-- The token that `Consume` stops at is never a comma, if the end-of-input token is none.
pub peek-consume_ne_comma :
    (l : Lexer) → same_kind l.sc.end.kind comma ≡ false → same_kind (peek (consume l)) comma ≡ false
unfolding consume
peek-consume_ne_comma l e = go l.sc.tokens
  where
    go :
        (ts : List Token)
        → same_kind (scan_past_commas ts l.sc.end l.skip_descriptions).next.kind comma ≡ false
    go [] = e
    go (t ∷ ts) = elim (Bool-cases (same_kind t.kind comma)) [
      | inl c ↦ rw c (go ts)
      | inr c ↦ rw c c
    ]

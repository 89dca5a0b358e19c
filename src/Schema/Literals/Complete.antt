-- ===== src/Schema/Literals/Complete.antt =====
-- `ParseLiteral` accepts every spelling of a literal, and builds that literal.
use graphql.Prelude.{
  ℕ, suc, ◌+◌, ◌<◌, ◌≡◌, refl, ap, ◌∙◌, Bool, true, false, List, [], ◌∷◌, ◌++◌, append_assoc, arith,
  length, length-append, one_call, if◌then◌else◌,
}
use graphql.Prelude.Result.{ok}
use graphql.Lexer.Token.{Token, TokenKind, ident, char, same_kind}
use graphql.Lexer.Parser.{Tokens, Parser, at, starts_literal, GoLibrary}
use graphql.Lexer.Laws.{
  at-cons, not_at-cons, consume_token-cons, consume_ident-cons, consume_ident_with_loc-cons,
  consume_literal-cons,
}
use graphql.Lexer.Loop.{until, until-cons, until-nil}
use graphql.Schema.Literals.Parse.{
  Literal, basic_lit, list_lit, object_lit, null_lit, variable, ObjectLitField, to_literals,
  to_fields, by_name, consume_basic_lit, parse_variable, parse_basic, parse_negative, parse_list,
  parse_field, parse_object, parse_literal,
}
use graphql.Schema.Literals.Grammar.{
  is_null, SpellsLiteral, SpellsLiterals, SpellsFields, null, basic, negative, var, entries, fields,
  no_entries, entry, no_fields, field,
}
use Prim.Native.String.{◌++◌ as ◌concat◌}

not_char : (k : TokenKind) (c : ℕ) → starts_literal k ≡ true → same_kind k (char c) ≡ false
not_char k c h = ground arith

module _ (go : GoLibrary) (f : ℕ) (c : Bool) where
  consume_basic_lit-cons :
      (t : Token) (rest : Tokens)
      → starts_literal t.kind ≡ true
      → consume_basic_lit (t ∷ rest) ≡ ok ((t.kind, t.text, t.loc), rest)
  unfolding consume_basic_lit
  consume_basic_lit-cons t rest s = rw (consume_literal-cons t rest s)

  parse_literal-basic :
      (t : Token) (rest : Tokens)
      → starts_literal t.kind ≡ true
      → parse_literal go (suc f) c (t ∷ rest)
        ≡ ok ((if is_null t then null_lit t.loc else basic_lit t.kind t.text t.loc), rest)
  unfolding parse_literal parse_basic
  parse_literal-basic t rest s = rw (not_char t.kind b'$' s, s, consume_basic_lit-cons t rest s)

  parse_literal-negative :
      (m t : Token) (rest : Tokens)
      → m.kind ≡ char b'-'
      → starts_literal t.kind ≡ true
      → parse_literal go (suc f) c (m ∷ t ∷ rest)
        ≡ ok (basic_lit t.kind (◌concat◌ "-" t.text) m.loc, rest)
  unfolding parse_literal parse_negative
  parse_literal-negative m t rest k s = rw (
    not_at-cons (char b'$') (char b'-') m k refl,
    ap starts_literal k,
    at-cons (char b'-') m k,
    consume_token-cons (char b'-') m (t ∷ rest) k,
    consume_basic_lit-cons t rest s,
  )

  parse_literal-var :
      (d n : Token) (rest : Tokens)
      → c ≡ false
      → d.kind ≡ char b'$'
      → n.kind ≡ ident
      → parse_literal go (suc f) c (d ∷ n ∷ rest) ≡ ok (variable n.text d.loc, rest)
  unfolding parse_literal parse_variable
  parse_literal-var d n rest e k kn = rw (
    at-cons (char b'$') d k,
    e,
    consume_token-cons (char b'$') d (n ∷ rest) k,
    consume_ident-cons n rest kn,
  )

  parse_literal-list :
      (l r : Token) (vs : List Literal) (ts rest : Tokens)
      → l.kind ≡ char b'['
      → r.kind ≡ char b']'
      → until f (char b']') (parse_literal go f c) ts ≡ ok (vs, r ∷ rest)
      → parse_literal go (suc f) c (l ∷ ts) ≡ ok (list_lit (to_literals vs) l.loc, rest)
  unfolding parse_literal parse_list
  parse_literal-list l r vs ts rest k kr e = rw (
    not_at-cons (char b'$') (char b'[') l k refl,
    ap starts_literal k,
    not_at-cons (char b'-') (char b'[') l k refl,
    at-cons (char b'[') l k,
    consume_token-cons (char b'[') l ts k,
    e,
    consume_token-cons (char b']') r rest kr,
  )

  parse_literal-object :
      (l r : Token) (fs : List ObjectLitField) (ts rest : Tokens)
      → l.kind ≡ char b'{'
      → r.kind ≡ char b'}'
      → until f (char b'}') (parse_field (parse_literal go f c)) ts ≡ ok (fs, r ∷ rest)
      → parse_literal go (suc f) c (l ∷ ts)
        ≡ ok (object_lit (to_fields (go.sort_slice ObjectLitField by_name fs)) l.loc, rest)
  unfolding parse_literal parse_object
  parse_literal-object l r fs ts rest k kr e = rw (
    not_at-cons (char b'$') (char b'{') l k refl,
    ap starts_literal k,
    not_at-cons (char b'-') (char b'{') l k refl,
    not_at-cons (char b'[') (char b'{') l k refl,
    at-cons (char b'{') l k,
    consume_token-cons (char b'{') l ts k,
    e,
    consume_token-cons (char b'}') r rest kr,
  )

  parse_field-cons :
      (value : Parser Literal) (n d : Token) (v : Literal) (ts rest : Tokens)
      → n.kind ≡ ident
      → d.kind ≡ char b':'
      → value ts ≡ ok (v, rest)
      → parse_field value (n ∷ d ∷ ts)
        ≡ ok (record { name = n.text; name_loc = n.loc; value = v }, rest)
  unfolding parse_field
  parse_field-cons value n d v ts rest k kd e =
      rw (consume_ident_with_loc-cons n (d ∷ ts) k, consume_token-cons (char b':') d ts kd, e)

module _ (go : GoLibrary) (c : Bool) where
  abbrev FieldParser : ℕ → Parser ObjectLitField
  FieldParser f = parse_field (parse_literal go f c)

  -- No literal begins with a closing bracket.
  not_closed :
      {v : Literal} {ps : Tokens} (rest : Tokens)
      → SpellsLiteral go c v ps
      → at (char b']') (ps ++ rest) ≡ false
  not_closed rest (null t s n q) = rw q (not_char t.kind b']' s)
  not_closed rest (basic t s n q) = rw q (not_char t.kind b']' s)
  not_closed rest (negative m t k s q) = rw q (not_at-cons (char b']') (char b'-') m k refl)
  not_closed rest (var d n e k kn q) = rw q (not_at-cons (char b']') (char b'$') d k refl)
  not_closed rest (entries l r s k kr q) = rw q (not_at-cons (char b']') (char b'[') l k refl)
  not_closed rest (fields l r s k kr q) = rw q (not_at-cons (char b']') (char b'{') l k refl)

  shorter :
      {f : ℕ} {qs : Tokens} (l r : Token) (ps : Tokens)
      → length qs < suc f
      → qs ≡ l ∷ (ps ++ r ∷ [])
      → length ps < f
  shorter l r ps h q = omega (arith, ap length q, length-append ps (r ∷ []))

  length-SpellsLiteral_pos : {v : Literal} {ps : Tokens} → SpellsLiteral go c v ps → 0 < length ps
  length-SpellsLiteral_pos (null t s n q) = omega (arith, ap length q)
  length-SpellsLiteral_pos (basic t s n q) = omega (arith, ap length q)
  length-SpellsLiteral_pos (negative m t k s q) = omega (arith, ap length q)
  length-SpellsLiteral_pos (var d n e k kn q) = omega (arith, ap length q)
  length-SpellsLiteral_pos (entries l r s k kr q) = omega (arith, ap length q)
  length-SpellsLiteral_pos (fields l r s k kr q) = omega (arith, ap length q)

  mutual
    literal-reads :
        {v : Literal} {ps : Tokens} (f : ℕ) (rest : Tokens)
        → SpellsLiteral go c v ps
        → length ps < suc f
        → parse_literal go (suc f) c (ps ++ rest) ≡ ok (v, rest)
    literal-reads f rest (null t s n q) h = rw q (rw n at (parse_literal-basic go f c t rest s))
    literal-reads f rest (basic t s n q) h = rw q (rw n at (parse_literal-basic go f c t rest s))
    literal-reads f rest (negative m t k s q) h = rw q (parse_literal-negative go f c m t rest k s)
    literal-reads f rest (var d n e k kn q) h = rw q (parse_literal-var go f c d n rest e k kn)
    literal-reads f rest (entries {vs} {ps} l r s k kr q) h =
        rw (q, append_assoc)
          (parse_literal-list go f c l r vs (ps ++ r ∷ rest) rest k kr (
            literals-read f f (r ∷ rest) s (shorter l r ps h q) (shorter l r ps h q)
              (at-cons (char b']') r kr)))
    literal-reads f rest (fields {fs} {ps} l r s k kr q) h =
        rw (q, append_assoc)
          (parse_literal-object go f c l r fs (ps ++ r ∷ rest) rest k kr (
            fields-read f f (r ∷ rest) s (shorter l r ps h q) (shorter l r ps h q)
              (at-cons (char b'}') r kr)))

    literals-read :
        {vs : List Literal} {ps : Tokens} (f n : ℕ) (rest : Tokens)
        → SpellsLiterals go c vs ps
        → length ps < f
        → length ps < n
        → at (char b']') rest ≡ true
        → until n (char b']') (parse_literal go f c) (ps ++ rest) ≡ ok (vs, rest)
    literals-read f n rest no_entries h b e =
        one_call (λ n. until n (char b']') (parse_literal go f c) rest ≡ ok ([], rest))
          (λ g _. until-nil (char b']') (parse_literal go f c) g rest e) n b
    literals-read f n rest (entry {v} {vs} {ps} {qs} sv svs q) h b e =
        let pos = length-SpellsLiteral_pos sv in
        let size = ap length q ∙ length-append ps qs in
        rw (q, append_assoc)
          (one_call
            (λ n.
              until n (char b']') (parse_literal go f c) (ps ++ (qs ++ rest)) ≡ ok (v ∷ vs, rest))
            {size = length ps + length qs}
            (λ m l.
              until-cons (char b']') (parse_literal go f c) m v vs (ps ++ (qs ++ rest)) (qs ++ rest)
                rest (not_closed (qs ++ rest) sv)
                (one_call (λ f. parse_literal go f c (ps ++ (qs ++ rest)) ≡ ok (v, qs ++ rest))
                  (λ g l. literal-reads g (qs ++ rest) sv l) f (omega arith))
                (literals-read f m rest svs (omega arith) (omega arith) e))
            n (omega arith))

    fields-read :
        {fs : List ObjectLitField} {ps : Tokens} (f n : ℕ) (rest : Tokens)
        → SpellsFields go c fs ps
        → length ps < f
        → length ps < n
        → at (char b'}') rest ≡ true
        → until n (char b'}') (FieldParser f) (ps ++ rest) ≡ ok (fs, rest)
    fields-read f n rest no_fields h b e =
        one_call (λ n. until n (char b'}') (FieldParser f) rest ≡ ok ([], rest))
          (λ g _. until-nil (char b'}') (FieldParser f) g rest e) n b
    fields-read f n rest (field {v} {fs} {ps} {qs} m d km kd sv svs q) h b e =
        let size = ap length q ∙ ap (λ (k : ℕ). suc (suc k)) (length-append ps qs) in
        rw (q, append_assoc)
          (one_call
            (λ n.
              until n (char b'}') (FieldParser f) (m ∷ d ∷ (ps ++ (qs ++ rest)))
              ≡ ok (record { name = m.text; name_loc = m.loc; value = v } ∷ fs, rest))
            {size = length ps + length qs + 2}
            (λ k l.
              until-cons (char b'}') (FieldParser f) k _ fs _ (qs ++ rest) rest
                (not_at-cons (char b'}') ident m km refl)
                (parse_field-cons go f c (parse_literal go f c) m d v _ _ km kd (
                  one_call (λ f. parse_literal go f c (ps ++ (qs ++ rest)) ≡ ok (v, qs ++ rest))
                    (λ g l. literal-reads g (qs ++ rest) sv l) f (omega arith)))
                (fields-read f k rest svs (omega arith) (omega arith) e))
            n (omega arith))

-- With more fuel than the spelling has tokens, `ParseLiteral` reads a spelling off the front of any
-- input, whatever follows, and returns the literal that it spells.
pub parse_literal-SpellsLiteral :
    (go : GoLibrary) (c : Bool) {v : Literal} {ps : Tokens} (f : ℕ) (rest : Tokens)
    → SpellsLiteral go c v ps
    → length ps < f
    → parse_literal go f c (ps ++ rest) ≡ ok (v, rest)
parse_literal-SpellsLiteral go c {v} {ps} f rest s h =
    one_call (λ f. parse_literal go f c (ps ++ rest) ≡ ok (v, rest))
      (λ g l. literal-reads go c g rest s l) f h

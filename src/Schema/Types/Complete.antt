-- ===== src/Schema/Types/Complete.antt =====
-- `ParseType` accepts every spelling of a type, and builds that type.
use graphql.Prelude.{
  ℕ, suc, ◌<◌, ◌≡◌, refl, ap, false, [], ◌∷◌, ◌++◌, append_assoc, arith, length, length-append,
  one_call,
}
use graphql.Prelude.Result.{ok}
use graphql.Lexer.Token.{Token, ident, char}
use graphql.Lexer.Parser.{Tokens, Parser, at}
use graphql.Lexer.Laws.{at-cons, not_at-cons, consume_token-cons, consume_ident_with_loc-cons}
use graphql.Schema.Types.Parse.{
  SchemaType, type_name, list, parse_type_name, parse_null_type, parse_bang, parse_type,
}
use graphql.Schema.Types.Grammar.{SpellsType, SpellsNullType, nullable, bang, name, brackets}

parse_bang-bang :
    (t : SchemaType) (b : Token) (rest : Tokens)
    → b.kind ≡ char b'!'
    → parse_bang t (b ∷ rest) ≡ ok (SchemaType.non_null t, rest)
unfolding parse_bang
parse_bang-bang t b rest e = rw (at-cons (char b'!') b e, consume_token-cons (char b'!') b rest e)

parse_bang-none :
    (t : SchemaType) (rest : Tokens)
    → at (char b'!') rest ≡ false
    → parse_bang t rest ≡ ok (t, rest)
unfolding parse_bang
parse_bang-none t rest e = rw e

module _ (p : Parser SchemaType) where
  parse_null_type-name :
      (n : Token) (rest : Tokens)
      → n.kind ≡ ident
      → parse_null_type p (n ∷ rest) ≡ ok (type_name n.text n.loc, rest)
  unfolding parse_null_type parse_type_name
  parse_null_type-name n rest e =
      rw (not_at-cons (char b'[') ident n e refl, consume_ident_with_loc-cons n rest e)

  parse_null_type-brackets :
      (l r : Token) (t : SchemaType) (ps rest : Tokens)
      → l.kind ≡ char b'['
      → r.kind ≡ char b']'
      → p (ps ++ r ∷ rest) ≡ ok (t, r ∷ rest)
      → parse_null_type p (l ∷ (ps ++ r ∷ rest)) ≡ ok (list t, rest)
  unfolding parse_null_type
  parse_null_type-brackets l r t ps rest kl kr e = rw (
    at-cons (char b'[') l kl,
    consume_token-cons (char b'[') l (ps ++ r ∷ rest) kl,
    e,
    consume_token-cons (char b']') r rest kr,
  )

mutual
  unfolding parse_type

  parse_type-reads :
      {t : SchemaType} {ps : Tokens} (f : ℕ) (rest : Tokens)
      → SpellsType t ps
      → length ps < f
      → at (char b'!') rest ≡ false
      → parse_type f (ps ++ rest) ≡ ok (t, rest)
  parse_type-reads f rest (nullable {t} {ps} s) h e =
      one_call (λ f. parse_type f (ps ++ rest) ≡ ok (t, rest))
        (λ g l. rw (parse_null_type-reads g rest s l) (parse_bang-none t rest e)) f h
  parse_type-reads f rest (bang {t} {ps} b s kb q) h e =
      rw (q, append_assoc)
        (one_call (λ f. parse_type f (ps ++ b ∷ rest) ≡ ok (SchemaType.non_null t, rest))
          {size = length ps}
          (λ g l. rw (parse_null_type-reads g (b ∷ rest) s l) (parse_bang-bang t b rest kb)) f
          (omega (arith, length-append ps (b ∷ []), ap length q)))

  parse_null_type-reads :
      {t : SchemaType} {ps : Tokens} (f : ℕ) (rest : Tokens)
      → SpellsNullType t ps
      → length ps < suc f
      → parse_null_type (parse_type f) (ps ++ rest) ≡ ok (t, rest)
  parse_null_type-reads f rest (name n k q) h = rw q (parse_null_type-name (parse_type f) n rest k)
  parse_null_type-reads f rest (brackets {t} {ps} l r s kl kr q) h =
      rw (q, append_assoc)
        (parse_null_type-brackets (parse_type f) l r t ps rest kl kr (
          parse_type-reads f (r ∷ rest) s (omega (arith, length-append ps (r ∷ []), ap length q))
            (not_at-cons (char b'!') (char b']') r kr refl)))

-- With more fuel than the spelling has tokens, `ParseType` reads a spelling off the front of any
-- input that does not go on with "!", and returns the type that it spells.
pub parse_type-SpellsType :
    {t : SchemaType} {ps : Tokens} (f : ℕ) (rest : Tokens)
    → SpellsType t ps
    → length ps < f
    → at (char b'!') rest ≡ false
    → parse_type f (ps ++ rest) ≡ ok (t, rest)
parse_type-SpellsType = parse_type-reads

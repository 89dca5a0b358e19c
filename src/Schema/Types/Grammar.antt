-- ===== src/Schema/Types/Grammar.antt =====
-- The grammar of type references, over tokens: an independent description of what `ParseType`
-- accepts and what it builds.
use graphql.Prelude.{◌≡◌, [], ◌∷◌, ◌++◌}
use graphql.Lexer.Token.{Token, ident, char}
use graphql.Lexer.Parser.{Tokens}
use graphql.Schema.Types.Parse.{SchemaType, list, non_null, type_name}

mutual
  -- Type: NullType or NullType "!".
  pub data SpellsType : SchemaType → Tokens → Type 0 where
    nullable : {t : SchemaType} {ps : Tokens} → SpellsNullType t ps → SpellsType t ps
    bang :
        {t : SchemaType} {ps qs : Tokens} (b : Token)
        → SpellsNullType t ps
        → b.kind ≡ char b'!'
        → qs ≡ ps ++ b ∷ []
        → SpellsType (non_null t) qs

  -- NullType: a name, or "[" Type "]".
  pub data SpellsNullType : SchemaType → Tokens → Type 0 where
    name :
        {ps : Tokens} (n : Token)
        → n.kind ≡ ident
        → ps ≡ n ∷ []
        → SpellsNullType (type_name n.text n.loc) ps
    brackets :
        {t : SchemaType} {ps qs : Tokens} (l r : Token)
        → SpellsType t ps
        → l.kind ≡ char b'['
        → r.kind ≡ char b']'
        → qs ≡ l ∷ (ps ++ r ∷ [])
        → SpellsNullType (list t) qs

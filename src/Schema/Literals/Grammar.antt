-- ===== src/Schema/Literals/Grammar.antt =====
-- The grammar of literals, over tokens: an independent description of what `ParseLiteral` accepts
-- and what it builds. The fields of an object are spelled in the order of the input; the literal
-- holds them as `sort.Slice` leaves them.
use graphql.Prelude.{Bool, true, false, ◌≡◌, List, [], ◌∷◌, ◌++◌, ◌==◌, ◌&&◌}
use graphql.Lexer.Token.{Token, ident, char, same_kind}
use graphql.Lexer.Parser.{Tokens, GoLibrary, starts_literal}
use graphql.Schema.Literals.Parse.{
  Literal, basic_lit, list_lit, object_lit, null_lit, variable, ObjectLitField, to_literals,
  to_fields, by_name,
}
use Prim.Native.String.{◌++◌ as ◌concat◌}

abbrev pub is_null : Token → Bool
is_null t = same_kind t.kind ident && t.text == "null"

module _ (go : GoLibrary) (const_only : Bool) where
  mutual
    pub data SpellsLiteral : Literal → Tokens → Type 0 where
      null :
          {ps : Tokens} (t : Token)
          → starts_literal t.kind ≡ true
          → is_null t ≡ true
          → ps ≡ t ∷ []
          → SpellsLiteral (null_lit t.loc) ps
      basic :
          {ps : Tokens} (t : Token)
          → starts_literal t.kind ≡ true
          → is_null t ≡ false
          → ps ≡ t ∷ []
          → SpellsLiteral (basic_lit t.kind t.text t.loc) ps
      negative :
          {ps : Tokens} (m t : Token)
          → m.kind ≡ char b'-'
          → starts_literal t.kind ≡ true
          → ps ≡ m ∷ t ∷ []
          → SpellsLiteral (basic_lit t.kind (◌concat◌ "-" t.text) m.loc) ps
      var :
          {ps : Tokens} (d n : Token)
          → const_only ≡ false
          → d.kind ≡ char b'$'
          → n.kind ≡ ident
          → ps ≡ d ∷ n ∷ []
          → SpellsLiteral (variable n.text d.loc) ps
      entries :
          {vs : List Literal} {ps qs : Tokens} (l r : Token)
          → SpellsLiterals vs ps
          → l.kind ≡ char b'['
          → r.kind ≡ char b']'
          → qs ≡ l ∷ (ps ++ r ∷ [])
          → SpellsLiteral (list_lit (to_literals vs) l.loc) qs
      fields :
          {fs : List ObjectLitField} {ps qs : Tokens} (l r : Token)
          → SpellsFields fs ps
          → l.kind ≡ char b'{'
          → r.kind ≡ char b'}'
          → qs ≡ l ∷ (ps ++ r ∷ [])
          → SpellsLiteral
              (object_lit (to_fields (go.sort_slice ObjectLitField by_name fs)) l.loc)
              qs

    pub data SpellsLiterals : List Literal → Tokens → Type 0 where
      no_entries : SpellsLiterals [] []
      entry :
          {v : Literal} {vs : List Literal} {ps qs rs : Tokens}
          → SpellsLiteral v ps
          → SpellsLiterals vs qs
          → rs ≡ ps ++ qs
          → SpellsLiterals (v ∷ vs) rs

    pub data SpellsFields : List ObjectLitField → Tokens → Type 0 where
      no_fields : SpellsFields [] []
      field :
          {v : Literal} {fs : List ObjectLitField} {ps qs rs : Tokens} (n c : Token)
          → n.kind ≡ ident
          → c.kind ≡ char b':'
          → SpellsLiteral v ps
          → SpellsFields fs qs
          → rs ≡ n ∷ c ∷ (ps ++ qs)
          → SpellsFields (record { name = n.text; name_loc = n.loc; value = v } ∷ fs) rs

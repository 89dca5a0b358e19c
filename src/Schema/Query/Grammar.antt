-- ===== src/Schema/Query/Grammar.antt =====
-- The grammar of query documents, over tokens: an independent description of what the parser
-- accepts and of the document that it builds, with the positions that it records.
use graphql.Prelude.{String, Bool, true, false, ◌≡◌, [], ◌∷◌, ◌++◌, ◌==◌}
use graphql.Qerrors.{Location}
use graphql.Lexer.Token.{Token, ident, char}
use graphql.Lexer.Parser.{Tokens, location, no_location, GoLibrary}
use graphql.Lexer.Loop.{SpellsEach}
use graphql.Schema.Values.Parse.{DirectiveList, InputValue, InputValueList}
use graphql.Schema.Values.Grammar.{SpellsArguments, SpellsDirectives, SpellsInputValue}
use graphql.Schema.Query.Parse.{
  TypeName, no_type_name, FieldHead, Selection, Selections, field_selection, inline_fragment,
  fragment_spread, no_selections, selection, query, mutation, subscription, Operation, FragmentDecl,
  QueryDocument, add_operation, add_fragment,
}
use Prim.Native.String.{◌++◌ as ◌concat◌}

-- The name behind an alias, or nothing: the alias is the name then.
pub data SpellsName (alias : String) : String → Location → Tokens → Type 0 where
  no_alias : SpellsName alias alias no_location []
  aliased :
      (c n : Token)
      → c.kind ≡ char b':'
      → n.kind ≡ ident
      → SpellsName alias n.text n.loc (c ∷ n ∷ [])

-- The name of an operation, or nothing.
pub data SpellsOptionalName : String → Location → Tokens → Type 0 where
  anonymous : SpellsOptionalName "" no_location []
  called : (n : Token) → n.kind ≡ ident → SpellsOptionalName n.text n.loc (n ∷ [])

-- "on" and a type condition, or nothing.
pub data SpellsCondition : TypeName → Tokens → Type 0 where
  unconditional : SpellsCondition no_type_name []
  on :
      (k n : Token)
      → k.kind ≡ ident
      → (k.text == "on") ≡ true
      → n.kind ≡ ident
      → SpellsCondition (record { name = n.text; name_loc = n.loc }) (k ∷ n ∷ [])

module _ (go : GoLibrary) where
  mutual
    -- A field, "..." and a fragment's name, or "..." and an inline fragment.
    pub data SpellsSelection : Selection → Tokens → Type 0 where
      a_field :
          {h : FieldHead} {ss : Selections} {ns as' ds sets ts : Tokens} (a : Token)
          → a.kind ≡ ident
          → (h.alias ≡ a.text) × (h.alias_loc ≡ a.loc)
          → SpellsName a.text h.name h.name_loc ns
          → SpellsArguments go h.arguments as'
          → SpellsDirectives go h.directives ds
          → SpellsOptionalSet ss h.selection_set_loc sets
          → ts ≡ a ∷ (ns ++ (as' ++ (ds ++ sets)))
          → SpellsSelection (field_selection h ss) ts
      spread :
          {ds : DirectiveList} {us ts : Tokens} (d₁ d₂ d₃ n : Token)
          → (d₁.kind ≡ char b'.') × (d₂.kind ≡ char b'.') × (d₃.kind ≡ char b'.')
          → n.kind ≡ ident
          → (n.text == "on") ≡ false
          → SpellsDirectives go ds us
          → ts ≡ d₁ ∷ d₂ ∷ d₃ ∷ n ∷ us
          → SpellsSelection (fragment_spread n.text n.loc ds d₁.loc) ts
      inline :
          {t : TypeName} {ds : DirectiveList} {ss : Selections} {cs us sets ts : Tokens}
          (d₁ d₂ d₃ : Token)
          → (d₁.kind ≡ char b'.') × (d₂.kind ≡ char b'.') × (d₃.kind ≡ char b'.')
          → SpellsCondition t cs
          → SpellsDirectives go ds us
          → SpellsSelectionSet ss sets
          → ts ≡ d₁ ∷ d₂ ∷ d₃ ∷ (cs ++ (us ++ sets))
          → SpellsSelection (inline_fragment t ds ss d₁.loc) ts

    pub data SpellsSelections : Selections → Tokens → Type 0 where
      nothing : SpellsSelections no_selections []
      a_selection :
          {s : Selection} {ss : Selections} {ps qs ts : Tokens}
          → SpellsSelection s ps
          → SpellsSelections ss qs
          → ts ≡ ps ++ qs
          → SpellsSelections (selection s ss) ts

    -- Selections between braces.
    pub data SpellsSelectionSet : Selections → Tokens → Type 0 where
      braces :
          {ss : Selections} {ps ts : Tokens} (l r : Token)
          → l.kind ≡ char b'{'
          → r.kind ≡ char b'}'
          → SpellsSelections ss ps
          → ts ≡ l ∷ (ps ++ r ∷ [])
          → SpellsSelectionSet ss ts

    -- A selection set and where it begins, or nothing.
    pub data SpellsOptionalSet : Selections → Location → Tokens → Type 0 where
      no_set : SpellsOptionalSet no_selections no_location []
      a_set :
          {ss : Selections} {ps : Tokens}
          → SpellsSelectionSet ss ps
          → SpellsOptionalSet ss (location ps) ps

  -- "$" and an input value. "$" becomes part of the name.
  pub data SpellsVar (skip : Bool) : InputValue → Tokens → Type 0 where
    var :
        {v : InputValue} {ps : Tokens} (d : Token)
        → d.kind ≡ char b'$'
        → SpellsInputValue go skip v ps
        → SpellsVar skip (record v { name = ◌concat◌ "$" v.name; loc = d.loc }) (d ∷ ps)

  pub data SpellsVars (skip : Bool) : InputValueList → Tokens → Type 0 where
    no_vars : SpellsVars skip [] []
    vars :
        {vs : InputValueList} {ps : Tokens} (l r : Token)
        → l.kind ≡ char b'('
        → r.kind ≡ char b')'
        → SpellsEach (SpellsVar skip) vs ps
        → SpellsVars skip vs (l ∷ (ps ++ r ∷ []))

  -- What follows the keyword of an operation: a name, directives, variables and a selection set, in
  -- this order. The position is that of the first of these tokens.
  pub data SpellsOperation (skip : Bool) : Operation → Tokens → Type 0 where
    operation :
        {op : Operation} {ns ds vs sets ts : Tokens}
        → SpellsOptionalName op.name op.name_loc ns
        → SpellsDirectives go op.directives ds
        → SpellsVars skip op.vars vs
        → SpellsSelectionSet op.selections sets
        → ts ≡ ns ++ (ds ++ (vs ++ sets))
        → op.loc ≡ location ts
        → SpellsOperation skip op ts

  -- What follows the keyword of a fragment.
  pub data SpellsFragment : FragmentDecl → Tokens → Type 0 where
    fragment :
        {frag : FragmentDecl} {ds sets ts : Tokens} (n k t : Token)
        → n.kind ≡ ident
        → (frag.name ≡ n.text) × (frag.name_loc ≡ n.loc)
        → (k.kind ≡ ident) × (k.text ≡ "on") × (t.kind ≡ ident)
        → (frag.on ≡ record { name = t.text; name_loc = t.loc })
        → SpellsDirectives go frag.directives ds
        → SpellsSelectionSet frag.selections sets
        → ts ≡ n ∷ k ∷ t ∷ (ds ++ sets)
        → SpellsFragment frag ts

  -- One definition, which takes the document `d` to another. Queries and fragments stand at their
  -- keyword, mutations and subscriptions at the token behind it.
  pub data SpellsDefinition (skip : Bool) (d : QueryDocument)
      : QueryDocument → Tokens → Type 0 where
    shorthand :
        {op : Operation} {ts : Tokens}
        → SpellsSelectionSet op.selections ts
        → (op.type ≡ query) × (op.name ≡ "") × (op.vars ≡ []) × (op.directives ≡ [])
        → (op.name_loc ≡ no_location) × (op.loc ≡ location ts)
        → SpellsDefinition skip d (add_operation d op) ts
    a_query :
        {op : Operation} {ts : Tokens} (k : Token)
        → (k.kind ≡ ident) × (k.text ≡ "query") × (op.type ≡ query)
        → SpellsOperation skip op ts
        → SpellsDefinition skip d (add_operation d (record op { loc = k.loc })) (k ∷ ts)
    a_mutation :
        {op : Operation} {ts : Tokens} (k : Token)
        → (k.kind ≡ ident) × (k.text ≡ "mutation") × (op.type ≡ mutation)
        → SpellsOperation skip op ts
        → SpellsDefinition skip d (add_operation d op) (k ∷ ts)
    a_subscription :
        {op : Operation} {ts : Tokens} (k : Token)
        → (k.kind ≡ ident) × (k.text ≡ "subscription") × (op.type ≡ subscription)
        → SpellsOperation skip op ts
        → SpellsDefinition skip d (add_operation d op) (k ∷ ts)
    a_fragment :
        {frag : FragmentDecl} {ts : Tokens} (k : Token)
        → (k.kind ≡ ident) × (k.text ≡ "fragment") × (frag.loc ≡ k.loc)
        → SpellsFragment frag ts
        → SpellsDefinition skip d (add_fragment d frag) (k ∷ ts)

  -- Definitions one after another.
  pub data SpellsDocument (skip : Bool) : QueryDocument → QueryDocument → Tokens → Type 0 where
    no_definitions : {d : QueryDocument} → SpellsDocument skip d d []
    definition :
        {d d' d'' : QueryDocument} {ps qs ts : Tokens}
        → SpellsDefinition skip d d' ps
        → SpellsDocument skip d' d'' qs
        → ts ≡ ps ++ qs
        → SpellsDocument skip d d'' ts

-- ===== src/Schema/Definitions/Keys.antt =====
-- About `parseSchema` of schema/schema.go: the names under which the types stand.
use graphql.Prelude.{
  ℕ, zero, suc, ◌<◌, ◌≡◌, ◌≢◌, refl, String, Bool, ◌==◌, true, false, Bool-cases, inl, inr, arith,
  length,
}
use graphql.Prelude.Result.{
  Result, ok, out_of_fuel, Ensures, holds, stopped, Ensures-bind, Ensures-map, Ensures-if,
  Ensures-out_of_fuel,
}
use graphql.Lexer.Token.{char, eof}
use graphql.Lexer.Parser.{Tokens, Failure, Message, at, GoLibrary, Description}
use graphql.Schema.Literals.Evaluate.{Numbers}
use graphql.Schema.Definitions.{
  Schema, Object, TypeDef, interface_def, union_def, enum_def, input_def, scalar_def, name_of,
}
use graphql.Schema.Definitions.Declarations.{
  object_def-Shrinks, interface_def-Shrinks, union_def-Shrinks, input_def-Shrinks, enum_def-Shrinks,
  directive_def-Shrinks, scalar_def-Shrinks,
}
use graphql.Schema.Definitions.Lengths.{
  Shrinks, consume_token-Shrinks, consume_ident-Shrinks, consume_keyword-Shrinks,
  description-NoLonger, directives-NoLonger, block-Shrinks,
}
use graphql.Schema.Definitions.Document.{
  parse_entry_point, parse_schema_def, parse_type_def, parse_declaration_of, parse_declaration,
  parse_declarations, parse_schema, put_type,
}
use graphql.Schema.Definitions.Alter.Keys.{
  KeysAgree, assign-KeysAgree, declare_object-Ensures, declare_object-KeysAgree,
}
use graphql.Schema.Definitions.Alter.{TypeMap, declare_object}
use graphql.Schema.Definitions.Maps.{assign}

module _ {ℓ} (go : GoLibrary) (num : Numbers) (skip : Bool) (f : ℕ) (Inv : TypeMap → Type ℓ)
    (puts : (types : TypeMap) (t : TypeDef) → Inv types → Inv (assign ◌==◌ types (name_of t) t))
    (declares : (fail : Message → Result Failure TypeMap)
      → ((m : Message) → Ensures Inv (fail m))
      → (types : TypeMap) (obj : Object) → Inv types
      → Ensures Inv (declare_object go num fail types obj)) where
  -- What a parser of declarations does to the schema and the input.
  abbrev Declares : Schema → Tokens → Schema × Tokens → Type ℓ
  Declares s ts r = (Inv s.types → Inv r.0.types) × (length r.1 < length ts)

  entry_point-Shrinks : (ts : Tokens) → length ts < f → Ensures (Shrinks ts) (parse_entry_point ts)
  unfolding parse_entry_point
  entry_point-Shrinks ts h = Ensures-bind (consume_keyword-Shrinks _ ts) λ (_, ts₁) l₁.
      Ensures-bind (consume_token-Shrinks (char b':') ts₁ (cc))
        λ (_, ts₂) l₂. Ensures-bind (consume_ident-Shrinks ts₂) λ (_, ts₃) l₃. holds (omega arith)

  schema_def-Declares :
      (s : Schema) (ts : Tokens)
      → length ts < f
      → Ensures (Declares s ts) (parse_schema_def go num skip f s ts)
  unfolding parse_schema_def
  schema_def-Declares s ts h = Ensures-bind (directives-NoLonger go skip f ts h) λ (_, ts₁) l₁.
      Ensures-bind (consume_token-Shrinks (char b'{') ts₁ (cc)) λ (_, ts₂) l₂.
        Ensures-bind (block-Shrinks go skip f _ entry_point-Shrinks ts₂ (omega arith))
          λ (_, ts₃) l₃.
            Ensures-bind (consume_token-Shrinks (char b'}') ts₃ (cc))
              λ (_, ts₄) l₄. holds (λ k. k, omega arith)

  type_def-Declares :
      (s : Schema) (desc : Description) (ts : Tokens)
      → length ts < f
      → Inv s.types
      → Ensures (Declares s ts) (parse_type_def go num skip f s desc ts)
  unfolding parse_type_def
  type_def-Declares s desc ts h k =
      Ensures-bind (object_def-Shrinks go skip f desc ts h) λ (obj, ts₁) l₁.
        Ensures-bind (declares _ (λ m. stopped) s.types obj k) λ types agree. holds (λ _. agree, l₁)

  put-Declares :
      (s : Schema) (ts : Tokens) {rest : Tokens} (t : TypeDef)
      → length rest < length ts
      → Ensures {F = Failure} (Declares s ts) (ok (put_type s t, rest))
  put-Declares s ts t l = holds (λ k. puts s.types t k, l)

  declaration_of-Declares :
      (s : Schema) (desc : Description) (x : String) (ts : Tokens)
      → length ts < f
      → Inv s.types
      → Ensures (Declares s ts) (parse_declaration_of go num skip f s desc x ts)
  unfolding parse_declaration_of
  declaration_of-Declares s desc x ts h k = Ensures-if _ (schema_def-Declares s ts h) (
      Ensures-if _ (type_def-Declares s desc ts h k) (
        Ensures-if _
          (Ensures-bind (interface_def-Shrinks go skip f desc ts h)
            λ (t, _) l. put-Declares s ts (interface_def t) l)
          (Ensures-if _
            (Ensures-bind (union_def-Shrinks go skip f desc ts h)
              λ (t, _) l. put-Declares s ts (union_def t) l)
            (Ensures-if _
              (Ensures-bind (enum_def-Shrinks go skip f desc ts h)
                λ (t, _) l. put-Declares s ts (enum_def t) l)
              (Ensures-if _
                (Ensures-bind (input_def-Shrinks go skip f desc ts h)
                  λ (t, _) l. put-Declares s ts (input_def t) l)
                (Ensures-if _
                  (Ensures-bind (scalar_def-Shrinks go skip f desc ts h)
                    λ (t, _) l. put-Declares s ts (scalar_def t) l)
                  (Ensures-if _
                    (Ensures-bind (directive_def-Shrinks go skip f desc ts h)
                      λ (t, _) l. holds (λ k. k, l))
                    stopped)))))))

  declaration-Declares :
      (s : Schema) (ts : Tokens)
      → length ts < f
      → Inv s.types
      → Ensures (Declares s ts) (parse_declaration go num skip f s ts)
  unfolding parse_declaration
  declaration-Declares s ts h k = Ensures-bind (description-NoLonger go skip ts) λ (desc, ts₁) l₁.
      Ensures-bind (consume_ident-Shrinks ts₁) λ (x, ts₂) l₂.
        Ensures-map (declaration_of-Declares s desc x ts₂ (omega arith) k)
          λ r (keeps, l₃). (keeps, omega arith)

  declarations-Ensures :
      (n : ℕ) (s : Schema) (ts : Tokens)
      → length ts < f
      → length ts < n
      → Inv s.types
      → Ensures (λ r. Inv r.0.types × (at eof r.1 ≡ true)) (parse_declarations go num skip f n s ts)
  unfolding parse_declarations
  declarations-Ensures zero s ts h b k = absurd (omega arith)
  declarations-Ensures (suc n) s ts h b k = elim (Bool-cases (at eof ts)) [
    | inl e ↦ rw e (holds (k, e))
    | inr e ↦ rw e (
        Ensures-bind (declaration-Declares s ts h k) λ (s', ts₁) (keeps, l).
          declarations-Ensures n s' ts₁ (omega arith) (omega arith) (keeps k))
  ]

-- The parser of schemas ends on every list of tokens and for every schema that it adds to: it returns
-- a schema or raises an error, and does not run out of the fuel that it is given, which is one more
-- than there are tokens.
pub parse_schema-ne-out_of_fuel :
    (go : GoLibrary) (num : Numbers) (s : Schema) (ts : Tokens)
    → parse_schema go num s ts ≢ out_of_fuel
unfolding parse_schema
parse_schema-ne-out_of_fuel go num s ts = Ensures-out_of_fuel {Post = λ (_ : Schema). Unit {0}} (
    Ensures-bind
      (declarations-Ensures go num false (suc (length ts)) (λ _. Unit {0}) (λ types t _. tt)
        (λ fail fails types obj _.
          declare_object-Ensures _ fail fails go num types obj tt (λ o e. tt)
            (λ e o found same. tt))
        (suc (length ts)) s ts (omega arith) (omega arith) tt)
      λ (s', rest) _. holds tt)

-- If every type of the schema that the parser of schemas adds to stands under its own name, so does
-- every type of the schema that it returns, also behind the changes that `@graphql` asks for; it
-- returns one or raises an error, within its fuel.
pub parse_schema-KeysAgree :
    (go : GoLibrary) (num : Numbers) (s : Schema) (ts : Tokens)
    → KeysAgree s.types
    → Ensures (λ (s' : Schema). KeysAgree s'.types) (parse_schema go num s ts)
unfolding parse_schema
parse_schema-KeysAgree go num s ts k =
    Ensures-bind
      (declarations-Ensures go num false (suc (length ts)) KeysAgree
        (λ types t h. assign-KeysAgree types (name_of t) t h refl)
        (λ fail fails types obj h. declare_object-KeysAgree fail fails go num types obj h)
        (suc (length ts)) s ts (omega arith) (omega arith) k)
      λ (s', rest) (keys, _). holds keys

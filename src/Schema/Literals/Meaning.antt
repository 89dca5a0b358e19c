-- ===== src/Schema/Literals/Meaning.antt =====
-- What the literals of schema/literals.go stand for, apart from how `Evaluate` finds it.
use graphql.Prelude.{
  ℕ, ◌≡◌, ◌≢◌, String, true, false, ◌-◌, List, [], ◌∷◌, Option, none, some, ◌==◌, if◌then◌else◌,
  ltb,
}
use Prim.Native.String.{slice, len}
use graphql.Lexer.Token.{TokenKind, eof, ident, int, float, string, block_string, comment, char}
use graphql.Lexer.Parser.{GoLibrary}
use graphql.Qerrors.{Location}
use graphql.Schema.Literals.Parse.{
  Literal, basic_lit, list_lit, object_lit, null_lit, variable, nil_literal, Literals, no_literals,
  literal, Fields, no_fields, field,
}
use graphql.Schema.Literals.Evaluate.{
  Numbers, Panic, bad_number, bad_text, bad_bounds, invalid_literal, nil_dereference, Value,
  null_value, int_value, float_value, string_value, bool_value, list_value, map_value, Values,
  no_values, value, Members, no_members, member, variable_value,
}

abbrev pub or_other : {A : Type 0} → Option A → Option A → Option A
or_other none other = other
or_other (some a) other = some a

module _ {num : Numbers} where
  -- The value under a name: of a map, and of the last of several fields.
  unfoldable pub member_of : Members num → String → Option (Value num)
  member_of no_members name = none
  member_of (member n v m) name = if n == name then some v else member_of m name

  unfoldable pub last_given : List (String × Value num) → String → Option (Value num)
  last_given [] name = none
  last_given ((n, v) ∷ given) name =
      or_other (last_given given name) (if n == name then some v else none)

module _ (go : GoLibrary) (num : Numbers) where
  -- What the text of a token stands for,
  pub data BasicMeans : TokenKind → String → Value num → Type 0 where
    an_int :
        {text : String} {i : num.Int}
        → num.parse_int text ≡ some i
        → BasicMeans int text (int_value i)
    a_float :
        {text : String} {x : num.Float}
        → num.parse_float text ≡ some x
        → BasicMeans float text (float_value x)
    a_string :
        {text s : String} → go.unquote text ≡ some s → BasicMeans string text (string_value s)
    a_block :
        {text : String}
        → ltb (len text) 6 ≡ false
        → BasicMeans block_string text (string_value (slice text 3 (len text - 3)))
    is_true : BasicMeans ident "true" (bool_value true)
    is_false : BasicMeans ident "false" (bool_value false)
    an_enum :
        {text : String} → text ≢ "true" → text ≢ "false" → BasicMeans ident text (string_value text)

  -- and how it may fail to.
  pub data BasicFails : TokenKind → String → Panic → Type 0 where
    no_int : {text : String} → num.parse_int text ≡ none → BasicFails int text bad_number
    no_float : {text : String} → num.parse_float text ≡ none → BasicFails float text bad_number
    no_string : {text : String} → go.unquote text ≡ none → BasicFails string text bad_text
    short_block :
        {text : String} → ltb (len text) 6 ≡ true → BasicFails block_string text bad_bounds
    no_end : {text : String} → BasicFails eof text invalid_literal
    no_comment : {text : String} → BasicFails comment text invalid_literal
    no_char : {c : ℕ} {text : String} → BasicFails (char c) text invalid_literal

  module _ (vars : List (String × Value num)) where
    -- What a literal stands for: a list for the values of its entries in order, and an object for a
    -- map in which a name has the value of the last field of this name.
    mutual
      pub data Means : Literal → Value num → Type 0 where
        basic :
            {kind : TokenKind} {text : String} {loc : Location} {v : Value num}
            → BasicMeans kind text v
            → Means (basic_lit kind text loc) v
        entries :
            {vs : Literals} {loc : Location} {ws : Values num}
            → EntriesMean vs ws
            → Means (list_lit vs loc) (list_value ws)
        members :
            {fs : Fields} {loc : Location} {given : List (String × Value num)} {m : Members num}
            → FieldsMean fs given
            → ((name : String) → member_of m name ≡ last_given given name)
            → Means (object_lit fs loc) (map_value m)
        is_null : {loc : Location} → Means (null_lit loc) null_value
        of_variable :
            {name : String} {loc : Location} → Means (variable name loc) (variable_value vars name)

      pub data EntriesMean : Literals → Values num → Type 0 where
        no_entry : EntriesMean no_literals no_values
        an_entry :
            {v : Literal} {vs : Literals} {w : Value num} {ws : Values num}
            → Means v w
            → EntriesMean vs ws
            → EntriesMean (literal v vs) (value w ws)

      pub data FieldsMean : Fields → List (String × Value num) → Type 0 where
        no_field : FieldsMean no_fields []
        a_field :
            {name : String} {loc : Location} {v : Literal} {fs : Fields} {w : Value num}
            {given : List (String × Value num)}
            → Means v w
            → FieldsMean fs given
            → FieldsMean (field name loc v fs) ((name, w) ∷ given)

    -- The panic of the first part of a literal that stands for nothing.
    mutual
      pub data Fails : Literal → Panic → Type 0 where
        basic :
            {kind : TokenKind} {text : String} {loc : Location} {p : Panic}
            → BasicFails kind text p
            → Fails (basic_lit kind text loc) p
        in_list :
            {vs : Literals} {loc : Location} {p : Panic}
            → EntryFails vs p
            → Fails (list_lit vs loc) p
        in_object :
            {fs : Fields} {loc : Location} {p : Panic}
            → FieldFails fs p
            → Fails (object_lit fs loc) p
        nil_fails : Fails nil_literal nil_dereference

      pub data EntryFails : Literals → Panic → Type 0 where
        here : {v : Literal} {vs : Literals} {p : Panic} → Fails v p → EntryFails (literal v vs) p
        behind :
            {v : Literal} {vs : Literals} {w : Value num} {p : Panic}
            → Means v w
            → EntryFails vs p
            → EntryFails (literal v vs) p

      pub data FieldFails : Fields → Panic → Type 0 where
        field_here :
            {name : String} {loc : Location} {v : Literal} {fs : Fields} {p : Panic}
            → Fails v p
            → FieldFails (field name loc v fs) p
        field_behind :
            {name : String} {loc : Location} {v : Literal} {fs : Fields} {w : Value num} {p : Panic}
            → Means v w
            → FieldFails fs p
            → FieldFails (field name loc v fs) p

-- ===== src/Schema/Literals/Total.antt =====
-- About `Evaluate` of schema/literals.go.
use graphql.Prelude.{String, List, Option, none, some, ◌==◌, ltb}
use Prim.Native.String.{len}
use graphql.Prelude.Result.{Ensures, holds, stopped, Ensures-bind, Ensures-if}
use graphql.Lexer.Token.{TokenKind, eof, ident, int, float, string, block_string, comment, char}
use graphql.Lexer.Parser.{GoLibrary}
use graphql.Schema.Literals.Parse.{
  Literal, basic_lit, list_lit, object_lit, null_lit, variable, nil_literal, Literals, no_literals,
  literal, Fields, no_fields, field,
}
use graphql.Schema.Literals.Evaluate.{
  Numbers, Panic, Value, Members, assign_member, evaluate_basic, evaluate, evaluate_entries,
  evaluate_fields, or_panic, no_members,
}

or_panic-Ensures {ℓ κ} :
    {A : Type ℓ} {B : Type κ} (p : Panic) (o : Option A) (f : A → B)
    → Ensures (λ _. Unit {0}) (or_panic p o f)
or_panic-Ensures p none f = stopped
or_panic-Ensures p (some a) f = holds tt

module _ (go : GoLibrary) (num : Numbers) where
  basic-Ensures :
      (kind : TokenKind) (text : String) → Ensures (λ _. Unit {0}) (evaluate_basic go num kind text)
  unfolding evaluate_basic
  basic-Ensures int text = or_panic-Ensures _ (num.parse_int text) _
  basic-Ensures float text = or_panic-Ensures _ (num.parse_float text) _
  basic-Ensures string text = or_panic-Ensures _ (go.unquote text) _
  basic-Ensures block_string text = Ensures-if (ltb (len text) 6) stopped (holds tt)
  basic-Ensures ident text =
      Ensures-if (text == "true") (holds tt) (Ensures-if (text == "false") (holds tt) (holds tt))
  basic-Ensures eof text = stopped
  basic-Ensures comment text = stopped
  basic-Ensures (char c) text = stopped

  module _ (vars : List (String × Value num)) where
    mutual
      unfolding evaluate evaluate_entries evaluate_fields

      ends : (l : Literal) → Ensures (λ _. Unit {0}) (evaluate go num vars l)
      ends (basic_lit kind text loc) = basic-Ensures kind text
      ends (list_lit vs loc) = Ensures-bind (entries_end vs) λ _ _. holds tt
      ends (object_lit fs loc) = Ensures-bind (fields_end fs no_members) λ _ _. holds tt
      ends (null_lit loc) = holds tt
      ends (variable name loc) = holds tt
      ends nil_literal = stopped

      entries_end : (vs : Literals) → Ensures (λ _. Unit {0}) (evaluate_entries go num vars vs)
      entries_end no_literals = holds tt
      entries_end (literal v vs) =
          Ensures-bind (ends v) λ _ _. Ensures-bind (entries_end vs) λ _ _. holds tt

      fields_end :
          (fs : Fields) (m : Members num)
          → Ensures (λ _. Unit {0}) (evaluate_fields go num vars fs m)
      fields_end no_fields m = holds tt
      fields_end (field name loc v fs) m =
          Ensures-bind (ends v) λ w _. fields_end fs (assign_member name w m)

    -- `Evaluate` of a literal returns a value or panics, for any values of the variables.
    pub evaluate-Ensures : (l : Literal) → Ensures (λ _. Unit {0}) (evaluate go num vars l)
    evaluate-Ensures l = ends l

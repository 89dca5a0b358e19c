-- ===== src/Schema/Literals/Evaluate.antt =====
-- schema/literals.go: `Evaluate` of each literal. A panic is an error of the run.
use graphql.Prelude.{
  Bool, true, false, ◌-◌, String, List, [], ◌∷◌, Option, none, some, if◌then◌else◌, ◌==◌, ltb,
}
use graphql.Prelude.Result
use graphql.Prelude.Result.{Result, ok, raised}
use graphql.Lexer.Token.{TokenKind, ident, int, float, string, block_string}
use graphql.Lexer.Parser.{GoLibrary}
use graphql.Schema.Literals.Parse.{
  Literal, basic_lit, list_lit, object_lit, null_lit, variable, nil_literal, Literals, no_literals,
  literal, Fields, no_fields, field,
}
use Prim.Native.String.{slice, len}

-- Go's `int32` and `float64`, the functions of `strconv` that read them, and whether a `float64` lies
-- between `math.MinInt32` and `math.MaxInt32`.
pub record Numbers : Type 1 where
  pub Int : Type 0
  pub Float : Type 0
  pub parse_int : String → Option Int
  pub parse_float : String → Option Float
  pub in_int32 : Float → Bool

-- The panics of `Evaluate`.
pub data Panic : Type 0 where
  bad_number bad_text bad_bounds invalid_literal nil_dereference : Panic

-- What a literal evaluates to, an `interface{}` in Go; `Members` are the entries of a map.
module _ (num : Numbers) where
  mutual
    pub data Value : Type 0 where
      null_value : Value
      int_value : num.Int → Value
      float_value : num.Float → Value
      string_value : String → Value
      bool_value : Bool → Value
      list_value : Values → Value
      map_value : Members → Value

    pub data Values : Type 0 where
      no_values : Values
      value : Value → Values → Values

    pub data Members : Type 0 where
      no_members : Members
      member : String → Value → Members → Members

module _ {num : Numbers} where
  -- `fields[name] = v`.
  unfoldable pub assign_member : String → Value num → Members num → Members num
  assign_member name v no_members = member name v no_members
  assign_member name v (member n w m) =
      let rest = assign_member name v m in if n == name then member n v m else member n w rest

  -- `vars[name]`, which is nil if there is none.
  unfoldable pub variable_value : List (String × Value num) → String → Value num
  variable_value [] name = null_value
  variable_value ((n, v) ∷ vars) name = if n == name then v else variable_value vars name

abbrev pub or_panic {ℓ κ} : {A : Type ℓ} {B : Type κ} → Panic → Option A → (A → B) → Result Panic B
or_panic p none f = raised p
or_panic p (some a) f = ok (f a)

module _ (go : GoLibrary) (num : Numbers) where
  -- `BasicLit.Evaluate`.
  unfoldable pub evaluate_basic : TokenKind → String → Result Panic (Value num)
  evaluate_basic int text = or_panic bad_number (num.parse_int text) int_value
  evaluate_basic float text = or_panic bad_number (num.parse_float text) float_value
  evaluate_basic string text = or_panic bad_text (go.unquote text) string_value
  evaluate_basic block_string text =
      if ltb (len text) 6
      then raised bad_bounds
      else ok (string_value (slice text 3 (len text - 3)))
  evaluate_basic ident text =
      if text == "true"
      then ok (bool_value true)
      else if text == "false"
      then ok (bool_value false)
      else ok (string_value text)
  evaluate_basic _ text = raised invalid_literal

  module _ (vars : List (String × Value num)) where
    -- `Evaluate`: the entries of a list in order, and the fields of an object, which a Go map holds.
    unfoldable mutual
      unfolding evaluate_basic

      pub evaluate : Literal → Result Panic (Value num)
      evaluate (basic_lit kind text loc) = evaluate_basic kind text
      evaluate (list_lit entries loc) =
          Result.bind (evaluate_entries entries) λ vs. ok (list_value vs)
      evaluate (object_lit fields loc) =
          Result.bind (evaluate_fields fields no_members) λ m. ok (map_value m)
      evaluate (null_lit loc) = ok null_value
      evaluate (variable name loc) = ok (variable_value vars name)
      evaluate nil_literal = raised nil_dereference

      pub evaluate_entries : Literals → Result Panic (Values num)
      evaluate_entries no_literals = ok no_values
      evaluate_entries (literal v vs) =
          Result.bind (evaluate v) λ w. Result.bind (evaluate_entries vs) λ ws. ok (value w ws)

      pub evaluate_fields : Fields → Members num → Result Panic (Members num)
      evaluate_fields no_fields m = ok m
      evaluate_fields (field name loc v fs) m =
          Result.bind (evaluate v) λ w. evaluate_fields fs (assign_member name w m)

-- ===== src/Exec/Selection/Skip.antt =====
-- About `SkipByDirective` of exec/directive.go.
use graphql.Prelude.{◌≡◌, refl, String, Bool, List, Option}
use graphql.Prelude.Result
use graphql.Prelude.Result.{
  Result, ok, raised, out_of_fuel, Ensures, holds, stopped, Ensures-bind, Ensures-map, Ensures-if,
}
use graphql.Qerrors.{Location}
use graphql.Lexer.Parser.{GoLibrary}
use graphql.Schema.Literals.Evaluate.{
  Numbers, Panic, Value, null_value, int_value, float_value, string_value, bool_value, list_value,
  map_value,
}
use graphql.Schema.Literals.Total.{evaluate-Ensures}
use graphql.Schema.Values.Parse.{Directive, DirectiveList, get_argument, get_directive}
use graphql.Schema.Definitions.Alter.{if_some-elim}
use graphql.Exec.Selection.{
  Crash, SelectionError, pack_bool, is_nil, evaluate_if, skip_by_directive,
}

-- A run that ends, and what is done with its value.
pub bind-Ensures {ℓ κ} :
    {E A B : Type 0} {P : A → Type ℓ} {Q : B → Type κ} {run : Result E A}
    {then_run : A → Result E B}
    → Ensures P run
    → ((a : A) → run ≡ ok a → P a → Ensures Q (then_run a))
    → Ensures Q (Result.bind run then_run)
bind-Ensures (holds {v} p) step = step v refl p
bind-Ensures stopped step = stopped

abbrev pub Skips : Result Crash (Bool × Option SelectionError) → Type 0
Skips r = Ensures (λ _. Unit {0}) r

abbrev pub Ends : {E A : Type 0} → Result E A → Type 0
Ends r = Ensures (λ _. Unit {0}) r

module _ (go : GoLibrary) (num : Numbers) (vars : List (String × Value num)) where
  pack-Ends :
      (loc : Location) (r : Result Panic (Value num)) → Ends r → Skips (pack_bool go num vars loc r)
  pack-Ends loc (ok null_value) h = holds tt
  pack-Ends loc (ok (int_value _)) h = holds tt
  pack-Ends loc (ok (float_value _)) h = holds tt
  pack-Ends loc (ok (string_value _)) h = holds tt
  pack-Ends loc (ok (bool_value _)) h = holds tt
  pack-Ends loc (ok (list_value _)) h = holds tt
  pack-Ends loc (ok (map_value _)) h = holds tt
  pack-Ends loc (raised p) h = stopped
  pack-Ends loc out_of_fuel h = elim h [ ]

  evaluate_if-Ends : (d : Directive) → Skips (evaluate_if go num vars d)
  unfolding evaluate_if
  evaluate_if-Ends d =
      if_some-elim Skips (get_argument d.args "if")
        (λ arg.
          Ensures-if (is_nil go num vars arg) (holds tt)
            (pack-Ends _ _ (evaluate-Ensures go num vars arg)))
        stopped

  pub skip-Ends : (l : DirectiveList) → Skips (skip_by_directive go num vars l)
  unfolding skip_by_directive
  skip-Ends l = if_some-elim Skips (get_directive l "skip") evaluate_if-Ends (
      if_some-elim Skips (get_directive l "include")
        (λ d. Ensures-bind (evaluate_if-Ends d) λ _ _. holds tt) (holds tt))

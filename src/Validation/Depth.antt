-- ===== src/Validation/Depth.antt =====
-- internal/validation/validation.go: `validateMaxDepth`, with the fuel that bounds how deep its
-- calls of itself go; Go would overflow its stack where no fuel is enough.
pub mod Spec
pub mod Answers
pub mod Correct
pub mod Cycle
use graphql.Prelude.{
  ℕ, zero, suc, ◌+◌, String, Bool, true, false, List, [], ◌∷◌, ◌++◌, Option, none, some, ltb, ◌=?◌,
  ◌==◌, if◌then◌else◌,
}
use graphql.Prelude.Result
use graphql.Prelude.Result.{Result, ok, out_of_fuel}
use graphql.Qerrors.{Location}
use graphql.Schema.Query.Parse.{
  Selection, Selections, field_selection, inline_fragment, fragment_spread, no_selections,
  selection, FragmentDecl,
}

-- The errors that it adds, under "MaxDepthExceeded" and "MaxDepthEvaluationError".
pub data DepthError : Type 0 where
  max_depth_exceeded : Location → String → (depth max : ℕ) → DepthError
  unknown_fragment : Location → String → DepthError

-- `FragmentList.Get`.
unfoldable pub get_fragment : List FragmentDecl → String → Option FragmentDecl
get_fragment [] name = none
get_fragment (f ∷ l) name = if f.name == name then some f else get_fragment l name

-- What a call returns and the errors so far; no call raises an error.
abbrev pub Checked : Type 0
Checked = Result ⊥ (Bool × List DepthError)

-- `exceededMaxDepth || validateMaxDepth(…)`: the call is made only if the flag is not set.
abbrev pub or_else : Bool → List DepthError → (List DepthError → Checked) → Checked
or_else true errs call = ok (true, errs)
or_else false errs call = call errs

module _ (fragments : List FragmentDecl) (max : ℕ) where
  -- One round of the loop, given the function itself. The flag and the errors go round with it.
  unfoldable pub check_selection :
      (Selections → ℕ → List DepthError → Checked)
      → Selection
      → ℕ
      → Bool
      → List DepthError
      → Checked
  check_selection validate (field_selection h ss) depth exceeded errs =
      if ltb max depth
      then ok (true, errs ++ max_depth_exceeded h.alias_loc h.name depth max ∷ [])
      else or_else exceeded errs (validate ss (depth + 1))
  check_selection validate (inline_fragment on ds ss loc) depth exceeded errs =
      or_else exceeded errs (validate ss depth)
  check_selection validate (fragment_spread name name_loc ds loc) depth exceeded errs =
      elim (get_fragment fragments name) [
        | none ↦ ok (exceeded, errs ++ unknown_fragment loc name ∷ [])
        | some frag ↦ or_else exceeded errs (validate frag.selections depth)
      ]

  -- The loop.
  unfoldable pub check_selections :
      (Selections → ℕ → List DepthError → Checked)
      → Selections
      → ℕ
      → Bool
      → List DepthError
      → Checked
  check_selections validate no_selections depth exceeded errs = ok (exceeded, errs)
  check_selections validate (selection s ss) depth exceeded errs =
      Result.bind (check_selection validate s depth exceeded errs)
        λ (exceeded', errs'). check_selections validate ss depth exceeded' errs'

  -- `validateMaxDepth`.
  unfoldable pub validate_max_depth : ℕ → Selections → ℕ → List DepthError → Checked
  validate_max_depth zero ss depth errs = out_of_fuel
  validate_max_depth (suc f) ss depth errs =
      if max =? 0
      then ok (false, errs)
      else check_selections (validate_max_depth f) ss depth false errs

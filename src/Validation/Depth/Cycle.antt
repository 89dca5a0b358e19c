-- ===== src/Validation/Depth/Cycle.antt =====
-- `validateMaxDepth` on a fragment that spreads itself.
use graphql.Prelude.{ℕ, zero, suc, ◌≡◌, refl, false, List, some, ◌=?◌}
use graphql.Prelude.Result.{out_of_fuel}
use graphql.Qerrors.{Location}
use graphql.Prelude.{String}
use graphql.Schema.Values.Parse.{DirectiveList}
use graphql.Schema.Query.Parse.{FragmentDecl, Selections, selection, fragment_spread}
use graphql.Validation.Depth.{
  DepthError, Checked, get_fragment, check_selection, check_selections, validate_max_depth,
}

-- At a spread of a known fragment the loop makes the call on the fragment's selections.
spread-known :
    (fragments : List FragmentDecl) (max : ℕ)
    (validate : Selections → ℕ → List DepthError → Checked) (frag : FragmentDecl) (name : String)
    (name_loc loc : Location) (ds : DirectiveList) (depth : ℕ) (errs : List DepthError)
    → get_fragment fragments name ≡ some frag
    → check_selection fragments max validate (fragment_spread name name_loc ds loc) depth false errs
      ≡ validate frag.selections depth errs
unfolding check_selection
spread-known fragments max validate frag name name_loc loc ds depth errs g =
    rw (check_selection, g) refl

-- With a maximal depth other than 0, if the first selection of a fragment is a spread of the same
-- fragment, no fuel is enough for `validateMaxDepth` on the fragment's selections: Go recurses without an end.
pub validate_max_depth_cycle :
    (fragments : List FragmentDecl) (max : ℕ) (frag : FragmentDecl) (name : String)
    (name_loc loc : Location) (ds : DirectiveList) (rest : Selections)
    → (max =? 0) ≡ false
    → get_fragment fragments name ≡ some frag
    → frag.selections ≡ selection (fragment_spread name name_loc ds loc) rest
    → (f depth : ℕ) (errs : List DepthError)
    → validate_max_depth fragments max f frag.selections depth errs ≡ out_of_fuel
unfolding validate_max_depth check_selections
validate_max_depth_cycle fragments max frag name name_loc loc ds rest m g s zero depth errs = refl
validate_max_depth_cycle fragments max frag name name_loc loc ds rest m g s (suc f) depth errs =
    let again =
      validate_max_depth_cycle fragments max frag name name_loc loc ds rest m g s f depth errs in
    rw (m, s)
      (rw
        (spread-known fragments max (validate_max_depth fragments max f) frag name name_loc loc ds
          depth errs g)
        (rw again refl))

-- ===== src/Validation/Fragments.antt =====
-- internal/validation/validation.go: `markUsedFragments` and `detectFragmentCycle`. `Get` returns the first fragment of a name,
-- so its name stands for the pointer in the map of used fragments.
pub mod Reach
pub mod Used
pub mod Cycle
use graphql.Prelude.{
  ℕ, zero, suc, String, Bool, List, [], ◌∷◌, ◌++◌, ◌==◌, map, length, Option, none, some,
  if◌then◌else◌,
}
use graphql.Prelude.Result
use graphql.Prelude.Result.{Result, ok, out_of_fuel}
use graphql.Schema.Query.Parse.{
  Selection, Selections, field_selection, inline_fragment, fragment_spread, no_selections,
  selection, FragmentDecl,
}
use graphql.Schema.Definitions.Alter.{has_string, if_some}
use graphql.Qerrors.{Location}
use graphql.Schema.Definitions.Maps.{find, assign}
use graphql.Validation.Errors.{Error, fragment_cycle}
use graphql.Validation.Depth.{get_fragment}

-- The fragments marked so far.
abbrev pub Marking : Type 0
Marking = Result ⊥ (List String)

module _ (fragments : List FragmentDecl) where
  -- The body of `markUsedFragments`, given the call for a fragment. Where a spread is of no fragment,
  -- or of a marked one, the loop ends.
  unfoldable pub mark_used :
      (FragmentDecl → List String → Marking) → Selections → List String → Marking
  mark_used enter no_selections used = ok used
  mark_used enter (selection (field_selection h ss) rest) used =
      Result.bind (mark_used enter ss used) (mark_used enter rest)
  mark_used enter (selection (inline_fragment on ds ss loc) rest) used =
      Result.bind (mark_used enter ss used) (mark_used enter rest)
  mark_used enter (selection (fragment_spread name name_loc ds loc) rest) used =
      if_some (get_fragment fragments name)
        (λ frag.
          if has_string used frag.name
          then ok used
          else Result.bind (enter frag (frag.name ∷ used)) (mark_used enter rest))
        (ok used)

  -- `markUsedFragments`; the fuel bounds how deep the fragments lie in each other.
  unfoldable pub mark_used_fragments : ℕ → Selections → List String → Marking
  mark_used_fragments zero ss used = out_of_fuel
  mark_used_fragments (suc f) ss used =
      mark_used (λ frag. mark_used_fragments f frag.selections) ss used

-- The state of `detectFragmentCycle`: the fragments that it has visited, and the errors.
pub record Search : Type 0 where
  pub visited : List String
  pub errs : List Error

abbrev pub Searching : Type 0
Searching = Result ⊥ Search

-- `spreadPath`, the names and positions of the spreads on the way, and `spreadPathIndex`. The code
-- deletes the key that it has set when it is back, so the map is that of before.
abbrev pub SpreadPath : Type 0
SpreadPath = List (String × Location)

abbrev pub PathIndex : Type 0
PathIndex = List (String × ℕ)

-- `spreadPath[i:]`, and all but the last one.
unfoldable pub drop : ℕ → SpreadPath → SpreadPath
drop zero path = path
drop (suc i) [] = []
drop (suc i) (_ ∷ path) = drop i path

unfoldable pub but_last : SpreadPath → SpreadPath
but_last [] = []
but_last (p ∷ []) = []
but_last (p ∷ q ∷ path) = p ∷ but_last (q ∷ path)

-- The error about a circle.
abbrev pub cycle_error : String → SpreadPath → Error
cycle_error name cycle_path = record {
  locations = map (λ p. p.1) cycle_path;
  problem = fragment_cycle name (map (λ p. p.0) (but_last cycle_path));
}

module _ (fragments : List FragmentDecl) where
  module _ (enter : FragmentDecl → SpreadPath → PathIndex → Search → Searching) where
    -- `detectFragmentCycleSel` on a spread, given the call for a fragment.
    unfoldable pub detect_spread : SpreadPath → PathIndex → String → Location → Search → Searching
    detect_spread path index name loc s =
        if_some (get_fragment fragments name)
          (λ frag.
            let path' = path ++ (name, loc) ∷ [] in
            if_some (find ◌==◌ index frag.name)
              (λ i. ok (record s { errs = s.errs ++ cycle_error frag.name (drop i path') ∷ [] }))
              (if has_string s.visited frag.name
                then ok s
                else enter frag path' (assign ◌==◌ index frag.name (length path'))
                    (record s { visited = frag.name ∷ s.visited })))
          (ok s)

    -- The loop, with the selections inside a field or an inline fragment.
    unfoldable pub detect_selections : SpreadPath → PathIndex → Selections → Search → Searching
    detect_selections path index no_selections s = ok s
    detect_selections path index (selection (field_selection h ss) rest) s =
        Result.bind (detect_selections path index ss s) (detect_selections path index rest)
    detect_selections path index (selection (inline_fragment on ds ss loc) rest) s =
        Result.bind (detect_selections path index ss s) (detect_selections path index rest)
    detect_selections path index (selection (fragment_spread name name_loc ds loc) rest) s =
        Result.bind (detect_spread path index name loc s) (detect_selections path index rest)

  -- `detectFragmentCycle`.
  unfoldable pub detect_fragment_cycle :
      ℕ → SpreadPath → PathIndex → Selections → Search → Searching
  detect_fragment_cycle zero path index ss s = out_of_fuel
  detect_fragment_cycle (suc f) path index ss s =
      detect_selections (λ frag path' index'. detect_fragment_cycle f path' index' frag.selections)
        path index ss s

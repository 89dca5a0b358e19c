-- ===== src/Validation/Fragments/Used.antt =====
-- About `markUsedFragments` of internal/validation/validation.go.
use graphql.Prelude.{
  ℕ, zero, suc, ◌<◌, ◌≤◌, String, List, [], ◌∷◌, Bool-cases, inl, inr, Each, arith, length,
}
use graphql.Prelude.Result
use graphql.Prelude.Result.{Result, ok, Ensures, holds, Ensures-bind, Ensures-map}
use graphql.Schema.Query.Parse.{
  Selections, field_selection, inline_fragment, fragment_spread, no_selections, selection,
  FragmentDecl,
}
use graphql.Schema.Definitions.Alter.{has_string, if_some-cases}
use graphql.Validation.Depth.{get_fragment}
use graphql.Validation.Fragments.{mark_used, mark_used_fragments}
use graphql.Validation.Fragments.Reach.{
  Spreads, here, in_field, in_inline, in_rest, Reached, direct, through, lift-Reached, unmarked,
  unmarked-length, unmarked-found, Adds, Adds-none, Adds-then, Adds-all, Adds-mark, Adds-unmarked,
}

module _ (fragments : List FragmentDecl) where
  abbrev left : List String → ℕ
  left used = unmarked used fragments

  abbrev Marks : Selections → List String → List String → Type 0
  Marks ss = Adds (Reached fragments ss)

  module _ (f : ℕ) (enter : FragmentDecl → List String → Result ⊥ (List String))
      (enters : (frag : FragmentDecl) (used : List String)
        → left used < f
        → Ensures (Marks frag.selections used) (enter frag used)) where
    inner-then-rest :
        (ss rest all : Selections) (used : List String)
        → ((name : String) → Spreads ss name → Spreads all name)
        → ((name : String) → Spreads rest name → Spreads all name)
        → left used ≤ f
        → Ensures (Marks ss used) (mark_used fragments enter ss used)
        → ((used : List String)
            → left used ≤ f
            → Ensures (Marks rest used) (mark_used fragments enter rest used))
        → Ensures
            (Marks all used)
            (Result.bind (mark_used fragments enter ss used) (mark_used fragments enter rest))
    inner-then-rest ss rest all used in_ss in_more le first second = Ensures-bind first λ used1 a1.
        Ensures-map (second used1 (omega (arith, le, Adds-unmarked _ used used1 fragments a1)))
          λ used2 a2.
            Adds-then _ _ _ used used1 used2 (λ n. lift-Reached fragments in_ss)
              (λ n. lift-Reached fragments in_more) a1 a2

    marks :
        (ss : Selections) (used : List String)
        → left used ≤ f
        → Ensures (Marks ss used) (mark_used fragments enter ss used)
    unfolding mark_used
    marks no_selections used le = holds (Adds-none _ used)
    marks (selection (field_selection h ss) rest) used le =
        inner-then-rest ss rest _ used (λ n. in_field) (λ n. in_rest) le (marks ss used le)
          (marks rest)
    marks (selection (inline_fragment on ds ss loc) rest) used le =
        inner-then-rest ss rest _ used (λ n. in_inline) (λ n. in_rest) le (marks ss used le)
          (marks rest)
    marks (selection (fragment_spread name name_loc ds loc) rest) used le =
        if_some-cases (Ensures (Marks _ used)) (get_fragment fragments name)
          (λ frag found. elim (Bool-cases (has_string used frag.name)) [
            | inl e ↦ rw e (holds (Adds-none _ used))
            | inr e ↦ rw e (
                let less = unmarked-found name frag used fragments found e in
                Ensures-bind (enters frag (frag.name ∷ used) (omega (arith, less, le))) λ used1 a1.
                  Ensures-map
                    (marks rest used1
                      (omega (arith, less, le, Adds-unmarked _ _ used1 fragments a1)))
                    λ used2 a2.
                      Adds-then _ _ _ used used1 used2 (λ n r. r)
                        (λ n. lift-Reached fragments (λ m. in_rest))
                        (Adds-mark _ _ frag.name used used1 (direct here found)
                          (λ n. through here found) a1)
                        a2)
          ])
          (λ absent. holds (Adds-none _ used))

  fragments-Ensures :
      (f : ℕ) (ss : Selections) (used : List String)
      → left used < f
      → Ensures (Marks ss used) (mark_used_fragments fragments f ss used)
  unfolding mark_used_fragments
  fragments-Ensures zero ss used lt = absurd (omega (arith, lt))
  fragments-Ensures (suc f) ss used lt =
      marks f _ (λ frag used' lt'. fragments-Ensures f frag.selections used' lt') ss used
        (omega (arith, lt))

  -- With one more unit of fuel than there are fragments, `markUsedFragments` from no marked fragment
  -- returns, also where fragments spread each other in a circle, and every fragment that it marks is
  -- reached by spreads from the selections.
  pub mark_used_fragments-Reached :
      (ss : Selections)
      → Ensures
          (λ used. Each (Reached fragments ss) used)
          (mark_used_fragments fragments (suc (length fragments)) ss [])
  mark_used_fragments-Reached ss =
      Ensures-map
        (fragments-Ensures (suc (length fragments)) ss []
          (omega (arith, unmarked-length [] fragments)))
        λ used added. Adds-all (Reached fragments ss) used added

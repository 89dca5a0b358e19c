-- ===== src/Validation/Fragments/Cycle.antt =====
-- About `detectFragmentCycle` of internal/validation/validation.go.
use graphql.Prelude.{
  ℕ, zero, suc, ◌<◌, ◌≤◌, ◌≡◌, sym, String, List, [], ◌∷◌, some, ◌==◌, ==_iff, Bool-cases, inl, inr,
  Each, arith, length, subst,
}
use graphql.Prelude.Result.{Ensures, holds, Ensures-bind, Ensures-map}
use graphql.Qerrors.{Location}
use graphql.Schema.Query.Parse.{
  Selections, field_selection, inline_fragment, fragment_spread, no_selections, selection,
  FragmentDecl,
}
use graphql.Schema.Definitions.Maps.{find, assign, Every, Every-assign, Every-find}
use graphql.Schema.Definitions.Alter.{has_string, if_some-cases}
use graphql.Validation.Errors.{Error, fragment_cycle}
use graphql.Validation.Depth.{get_fragment}
use graphql.Validation.Fragments.{
  Search, Searching, SpreadPath, PathIndex, cycle_error, detect_spread, detect_selections,
  detect_fragment_cycle,
}
use graphql.Validation.Fragments.Reach.{
  Spreads, here, in_field, in_inline, in_rest, Reached, direct, through, lift-Reached, unmarked,
  unmarked-length, unmarked-found, Each-append,
}

found-name :
    (l : List FragmentDecl) (name : String) (frag : FragmentDecl)
    → get_fragment l name ≡ some frag
    → frag.name ≡ name
unfolding get_fragment
found-name [] name frag e = cc
found-name (f ∷ l) name frag e = elim (Bool-cases (f.name == name)) [
  | inl same ↦
      let is_frag : f ≡ frag = cc in let names : f.name ≡ name = (==_iff f.name name).0 same in cc
  | inr other ↦ found-name l name frag (cc)
]

get_fragment-name :
    (l : List FragmentDecl) (name : String) (frag : FragmentDecl)
    → get_fragment l name ≡ some frag
    → get_fragment l frag.name ≡ some frag
get_fragment-name l name frag e =
    subst (λ n. get_fragment l n ≡ some frag) (sym (found-name l name frag e)) e

module _ (fragments : List FragmentDecl) where
  -- An error that tells of a circle: the fragment of that name reaches itself.
  pub data TellsCircle : Error → Type 0 where
    circle :
        {locations : List Location} {name : String} {via : List String} {frag : FragmentDecl}
        → get_fragment fragments name ≡ some frag
        → Reached fragments frag.selections name
        → TellsCircle (record { locations = locations; problem = fragment_cycle name via })

  -- Each fragment on the way reaches what these selections reach.
  Way : Selections → PathIndex → Type 0
  Way ss = Every λ (name : String) (_ : ℕ).
      (frag : FragmentDecl) × (get_fragment fragments name ≡ some frag)
      × ((m : String) → Reached fragments ss m → Reached fragments frag.selections m)

  abbrev left : Search → ℕ
  left s = unmarked s.visited fragments

  -- What a call does.
  Finds : Search → Search → Type 0
  Finds s s' = (left s' ≤ left s) × (Each TellsCircle s.errs → Each TellsCircle s'.errs)

  Finds-none : (s : Search) → Finds s s
  unfolding Finds
  Finds-none s = (omega arith, λ h. h)

  Finds-then : (s s1 s2 : Search) → Finds s s1 → Finds s1 s2 → Finds s s2
  unfolding Finds
  Finds-then s s1 s2 (le, h) (le', h') = (omega (arith, le, le'), λ g. h' (h g))

  Way-lift :
      {ss all : Selections} (index : PathIndex)
      → ((name : String) → Spreads ss name → Spreads all name)
      → Way all index
      → Way ss index
  unfolding Way
  Way-lift [] up h = tt
  Way-lift ((name, i) ∷ index) up ((frag, e, leads), rest) =
      ((frag, e, λ m r. leads m (lift-Reached fragments up r)), Way-lift index up rest)

  Way-down :
      {ss : Selections} {name : String} {frag : FragmentDecl} (index : PathIndex)
      → Spreads ss name
      → get_fragment fragments name ≡ some frag
      → Way ss index
      → Way frag.selections index
  unfolding Way
  Way-down [] s e h = tt
  Way-down ((n, j) ∷ index) s e ((other, f, leads), rest) =
      ((other, f, λ m r. leads m (through s e r)), Way-down index s e rest)

  -- Behind a spread, the way is longer by its fragment.
  Way-enter :
      {ss : Selections} {name : String} {frag : FragmentDecl} (index : PathIndex) (i : ℕ)
      → Spreads ss name
      → get_fragment fragments name ≡ some frag
      → Way ss index
      → Way frag.selections (assign ◌==◌ index frag.name i)
  unfolding Way
  Way-enter {ss} {name} {frag} index i s e h =
      Every-assign _ index frag.name i (Way-down index s e h)
        (frag, get_fragment-name fragments name frag e, λ m r. r)

  module _ (f : ℕ) (enter : FragmentDecl → SpreadPath → PathIndex → Search → Searching)
      (enters : (frag : FragmentDecl) (path : SpreadPath) (index : PathIndex) (s : Search)
        → left s < f
        → Way frag.selections index
        → Ensures (Finds s) (enter frag path index s)) where
    known-circle :
        {ss : Selections} {name : String} {frag : FragmentDecl} (path : SpreadPath)
        (index : PathIndex) (i : ℕ)
        → Spreads ss name
        → get_fragment fragments name ≡ some frag
        → Way ss index
        → find ◌==◌ index frag.name ≡ some i
        → TellsCircle (cycle_error frag.name path)
    unfolding Way
    known-circle {frag = frag} path index i sp found way known =
        let (other, e, leads) = Every-find _ index frag.name i way known in
        circle e (leads frag.name (direct sp found))

    spread-Ensures :
        {ss : Selections} (path : SpreadPath) (index : PathIndex) (name : String) (loc : Location)
        (s : Search)
        → Spreads ss name
        → left s ≤ f
        → Way ss index
        → Ensures (Finds s) (detect_spread fragments enter path index name loc s)
    unfolding detect_spread Finds
    spread-Ensures {ss} path index name loc s sp le way =
        if_some-cases (Ensures (Finds s)) (get_fragment fragments name)
          (λ frag found.
            if_some-cases (Ensures (Finds s)) (find ◌==◌ index frag.name)
              (λ i known. holds (
                omega arith,
                λ h.
                    Each-append TellsCircle s.errs _ h
                      (known-circle _ index i sp found way known, tt),
              ))
              (λ unknown. elim (Bool-cases (has_string s.visited frag.name)) [
                | inl e ↦ rw e (holds (Finds-none s))
                | inr e ↦ rw e (
                    let less = unmarked-found name frag s.visited fragments found e in
                    Ensures-map
                      (enters frag _ _ (record s { visited = frag.name ∷ s.visited })
                        (omega (arith, less, le)) (Way-enter index _ sp found way))
                      λ s' (le', h). (omega (arith, less, le'), h))
              ]))
          (λ absent. holds (Finds-none s))

    selections-Ensures :
        (path : SpreadPath) (index : PathIndex) (ss : Selections) (s : Search)
        → left s ≤ f
        → Way ss index
        → Ensures (Finds s) (detect_selections fragments enter path index ss s)
    unfolding detect_selections Finds
    selections-Ensures path index no_selections s le way = holds (Finds-none s)
    selections-Ensures path index (selection (field_selection h ss) rest) s le way =
        Ensures-bind (selections-Ensures path index ss s le (Way-lift index (λ n. in_field) way))
          λ s1 first.
            Ensures-map
              (selections-Ensures path index rest s1 (omega (arith, le, first.0))
                (Way-lift index (λ n. in_rest) way))
              λ s2 second. Finds-then s s1 s2 first second
    selections-Ensures path index (selection (inline_fragment on ds ss loc) rest) s le way =
        Ensures-bind (selections-Ensures path index ss s le (Way-lift index (λ n. in_inline) way))
          λ s1 first.
            Ensures-map
              (selections-Ensures path index rest s1 (omega (arith, le, first.0))
                (Way-lift index (λ n. in_rest) way))
              λ s2 second. Finds-then s s1 s2 first second
    selections-Ensures path index (selection (fragment_spread name name_loc ds loc) rest) s le way =
        Ensures-bind (spread-Ensures path index name loc s here le way) λ s1 first.
          Ensures-map
            (selections-Ensures path index rest s1 (omega (arith, le, first.0))
              (Way-lift index (λ n. in_rest) way))
            λ s2 second. Finds-then s s1 s2 first second

  cycle-Ensures :
      (f : ℕ) (path : SpreadPath) (index : PathIndex) (ss : Selections) (s : Search)
      → left s < f
      → Way ss index
      → Ensures (Finds s) (detect_fragment_cycle fragments f path index ss s)
  unfolding detect_fragment_cycle
  cycle-Ensures zero path index ss s lt way = absurd (omega (arith, lt))
  cycle-Ensures (suc f) path index ss s lt way =
      selections-Ensures f _
        (λ frag path' index' s'. cycle-Ensures f path' index' frag.selections s') path index ss s
        (omega (arith, lt)) way

  -- With one more unit of fuel than there are fragments, `detectFragmentCycle`, called as `Validate`
  -- does for the first fragment of a name, returns, also where fragments spread each other in a
  -- circle. If the errors before tell of circles only, so do those after: each names a fragment that
  -- is reached by spreads from its own selections.
  pub detect_fragment_cycle-TellsCircle :
      (frag : FragmentDecl) (s : Search)
      → get_fragment fragments frag.name ≡ some frag
      → Each TellsCircle s.errs
      → Ensures
          (λ (s' : Search). Each TellsCircle s'.errs)
          (detect_fragment_cycle fragments
            (suc (length fragments))
            []
            ((frag.name, 0) ∷ [])
            frag.selections
            s)
  unfolding Way Finds
  detect_fragment_cycle-TellsCircle frag s e told =
      Ensures-map
        (cycle-Ensures (suc (length fragments)) [] _ frag.selections s
          (omega (arith, unmarked-length s.visited fragments)) ((frag, e, λ m r. r), tt))
        λ s' (_, h). h told

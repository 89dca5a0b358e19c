-- ===== src/Validation/Depth/Correct.antt =====
-- `validateMaxDepth` on a document whose fragments do not spread each other in a cycle.
use graphql.Prelude.{
  ℕ, suc, ◌+◌, ◌<◌, ◌≡◌, refl, Bool, true, false, List, some, none, ◌⊎◌, inl, inr, ltb, ◌=?◌,
  Bool-cases, arith, subst, ◌++◌, [], ◌∷◌,
}
use graphql.Prelude.Result.{ok}
use graphql.Schema.Values.Parse.{DirectiveList}
use graphql.Prelude.{String}
use graphql.Qerrors.{Location}
use graphql.Schema.Query.Parse.{
  FragmentDecl, Selections, field_selection, inline_fragment, fragment_spread, selection, FieldHead,
  TypeName, Selection,
}
use graphql.Validation.Depth.{
  DepthError, unknown_fragment, Checked, or_else, get_fragment, check_selection, check_selections,
  validate_max_depth,
}
use graphql.Validation.Depth.Spec.{
  FieldAt, here, below, within, spread, later, Expands, nothing, a_field, inline, unknown, known,
}
use graphql.Validation.Depth.Answers.{
  Answers, yes, Answers-map, Answers-bind, Answers-or_else, Answers-flag,
}

module _ (fragments : List FragmentDecl) (max : ℕ) where
  -- Some field is deeper than the maximal depth.
  abbrev pub TooDeep : Selections → ℕ → Type 0
  TooDeep ss d = (k : ℕ) × FieldAt fragments ss d k × (max < k)

  -- The part of it that the first selection decides.
  TooDeepHere : Selection → ℕ → Type 0
  TooDeepHere (field_selection h ss) d = (max < d) ⊎ TooDeep ss (d + 1)
  TooDeepHere (inline_fragment on ds ss loc) d = TooDeep ss d
  TooDeepHere (fragment_spread name name_loc ds loc) d =
      (frag : FragmentDecl) × (get_fragment fragments name ≡ some frag) × TooDeep frag.selections d

  TooDeep-selection :
      (s : Selection) (rest : Selections) (d : ℕ)
      → TooDeep (selection s rest) d
      → TooDeepHere s d ⊎ TooDeep rest d
  unfolding TooDeepHere
  TooDeep-selection s rest d (k, here e, m) = inl (inl (ground arith))
  TooDeep-selection s rest d (k, below w, m) = inl (inr (k, w, m))
  TooDeep-selection s rest d (k, within w, m) = inl (k, w, m)
  TooDeep-selection s rest d (k, spread {frag = frag} g w, m) = inl (frag, g, (k, w, m))
  TooDeep-selection s rest d (k, later w, m) = inr (k, w, m)

  TooDeepHere-selection :
      (s : Selection) (rest : Selections) (d : ℕ) → TooDeepHere s d → TooDeep (selection s rest) d
  unfolding TooDeepHere
  TooDeepHere-selection (field_selection h ss) rest d (inl m) = (d, here refl, m)
  TooDeepHere-selection (field_selection h ss) rest d (inr (k, w, m)) = (k, below w, m)
  TooDeepHere-selection (inline_fragment on ds ss loc) rest d (k, w, m) = (k, within w, m)
  TooDeepHere-selection (fragment_spread name name_loc ds loc) rest d (frag, g, (k, w, m)) =
      (k, spread g w, m)

  -- One round of the loop, for each kind of selection.
  module _ (validate : Selections → ℕ → List DepthError → Checked) (name : String)
      (name_loc loc : Location) (ds : DirectiveList) (d : ℕ) (b : Bool)
      (errs : List DepthError) where
    spread-none :
        get_fragment fragments name ≡ none
        → check_selection fragments max validate (fragment_spread name name_loc ds loc) d b errs
          ≡ ok (b, errs ++ unknown_fragment loc name ∷ [])
    unfolding check_selection
    spread-none g = rw (check_selection, g) refl

    spread-some :
        (frag : FragmentDecl)
        → get_fragment fragments name ≡ some frag
        → check_selection fragments max validate (fragment_spread name name_loc ds loc) d b errs
          ≡ or_else b errs (validate frag.selections d)
    unfolding check_selection
    spread-some frag g = rw (check_selection, g) refl

    check_unknown :
        get_fragment fragments name ≡ none
        → Answers
            ((b ≡ true) ⊎ TooDeepHere (fragment_spread name name_loc ds loc) d)
            (check_selection fragments max validate (fragment_spread name name_loc ds loc) d b errs)
    unfolding TooDeepHere
    check_unknown g =
        rw (spread-none g)
          (Answers-map inl (λ x. elim x [ inl t ↦ t | inr (frag, e, w) ↦ cc ]) (Answers-flag b))

    check_known :
        (frag : FragmentDecl)
        → get_fragment fragments name ≡ some frag
        → ((errs : List DepthError)
            → Answers (TooDeep frag.selections d) (validate frag.selections d errs))
        → Answers
            ((b ≡ true) ⊎ TooDeepHere (fragment_spread name name_loc ds loc) d)
            (check_selection fragments max validate (fragment_spread name name_loc ds loc) d b errs)
    unfolding TooDeepHere
    check_known frag g h = rw (spread-some frag g) (
        Answers-map (λ x. elim x [ inl t ↦ inl t | inr w ↦ inr (frag, g, w) ])
          (λ x. elim x [
            | inl t ↦ inl t
            | inr (frag', e, w) ↦
                let same : frag' ≡ frag = cc in
                inr (subst (λ (f : FragmentDecl). TooDeep f.selections d) same w)
          ])
          (Answers-or_else b errs h))

  check_field :
      (validate : Selections → ℕ → List DepthError → Checked) (h : FieldHead) (ss : Selections)
      (d : ℕ) (b : Bool) (errs : List DepthError)
      → ((errs : List DepthError) → Answers (TooDeep ss (d + 1)) (validate ss (d + 1) errs))
      → Answers
          ((b ≡ true) ⊎ TooDeepHere (field_selection h ss) d)
          (check_selection fragments max validate (field_selection h ss) d b errs)
  unfolding check_selection TooDeepHere
  check_field validate h ss d b errs deeper = elim (Bool-cases (ltb max d)) [
    | inl e ↦ rw e (yes (inr (inl (ground arith))))
    | inr e ↦ rw e (
        Answers-map (λ x. elim x [ inl t ↦ inl t | inr w ↦ inr (inr w) ])
          (λ x. elim x [
            | inl t ↦ inl t
            | inr (inl m) ↦ absurd (ground arith)
            | inr (inr w) ↦ inr w
          ])
          (Answers-or_else b errs deeper))
  ]

  check_inline :
      (validate : Selections → ℕ → List DepthError → Checked) (on : TypeName) (ds : DirectiveList)
      (loc : Location) (ss : Selections) (d : ℕ) (b : Bool) (errs : List DepthError)
      → ((errs : List DepthError) → Answers (TooDeep ss d) (validate ss d errs))
      → Answers
          ((b ≡ true) ⊎ TooDeepHere (inline_fragment on ds ss loc) d)
          (check_selection fragments max validate (inline_fragment on ds ss loc) d b errs)
  unfolding check_selection TooDeepHere
  check_inline validate on ds loc ss d b errs h = Answers-or_else b errs h

  -- The loop, if the round for the first selection and the rest are right.
  check_rest :
      (validate : Selections → ℕ → List DepthError → Checked) (s : Selection) (rest : Selections)
      (d : ℕ) (b : Bool) (errs : List DepthError)
      → Answers ((b ≡ true) ⊎ TooDeepHere s d) (check_selection fragments max validate s d b errs)
      → ((b : Bool) (errs : List DepthError)
          → Answers
              ((b ≡ true) ⊎ TooDeep rest d)
              (check_selections fragments max validate rest d b errs))
      → Answers
          ((b ≡ true) ⊎ TooDeep (selection s rest) d)
          (check_selections fragments max validate (selection s rest) d b errs)
  unfolding check_selections
  check_rest validate s rest d b errs first others =
      Answers-map
        (λ x. elim x [
          | inl (inl t) ↦ inl t
          | inl (inr w) ↦ inr (TooDeepHere-selection s rest d w)
          | inr (k, w, m) ↦ inr (k, later w, m)
        ])
        (λ x. elim x [
          | inl t ↦ inl (inl t)
          | inr w ↦ elim (TooDeep-selection s rest d w) [ inl h ↦ inl (inr h) | inr r ↦ inr r ]
        ])
        (Answers-bind (λ (b', errs'). check_selections fragments max validate rest d b' errs') first
          others)

  -- A call, by its loop.
  check_call :
      (ss : Selections) (n d : ℕ) (errs : List DepthError)
      → (max =? 0) ≡ false
      → Answers
          ((false ≡ true) ⊎ TooDeep ss d)
          (check_selections fragments max (validate_max_depth fragments max n) ss d false errs)
      → Answers (TooDeep ss d) (validate_max_depth fragments max (suc n) ss d errs)
  unfolding validate_max_depth
  check_call ss n d errs m h = rw m (Answers-map (λ x. elim x [ inl t ↦ cc | inr w ↦ w ]) inr h)

  -- The loop at the fuel that the selections need.
  check_loop :
      (max =? 0) ≡ false
      → {ss : Selections} {n : ℕ} → Expands fragments ss n
      → (d : ℕ) (b : Bool) (errs : List DepthError)
      → Answers
          ((b ≡ true) ⊎ TooDeep ss d)
          (check_selections fragments max (validate_max_depth fragments max n) ss d b errs)
  unfolding check_selections
  check_loop m nothing d b errs =
      Answers-map inl (λ x. elim x [ inl t ↦ t | inr (k, w, m') ↦ elim w [ ] ]) (Answers-flag b)
  check_loop m (a_field {h} {ss} {rest} {n} x y) d b errs =
      check_rest (validate_max_depth fragments max (suc n)) (field_selection h ss) rest d b errs
        (check_field (validate_max_depth fragments max (suc n)) h ss d b errs
          (λ errs. check_call ss n (d + 1) errs m (check_loop m x (d + 1) false errs)))
        (check_loop m y d)
  check_loop m (inline {on} {ds} {loc} {ss} {rest} {n} x y) d b errs =
      check_rest (validate_max_depth fragments max (suc n)) (inline_fragment on ds ss loc) rest d b
        errs
        (check_inline (validate_max_depth fragments max (suc n)) on ds loc ss d b errs
          (λ errs. check_call ss n d errs m (check_loop m x d false errs)))
        (check_loop m y d)
  check_loop m (unknown {name} {name_loc} {loc} {ds} {rest} {n} g y) d b errs =
      check_rest (validate_max_depth fragments max (suc n)) (fragment_spread name name_loc ds loc)
        rest d b errs
        (check_unknown (validate_max_depth fragments max (suc n)) name name_loc loc ds d b errs g)
        (check_loop m y d)
  check_loop m (known {name} {name_loc} {loc} {ds} {rest} {n} {frag} g x y) d b errs =
      check_rest (validate_max_depth fragments max (suc n)) (fragment_spread name name_loc ds loc)
        rest d b errs
        (check_known (validate_max_depth fragments max (suc n)) name name_loc loc ds d b errs frag g
          (λ errs. check_call frag.selections n d errs m (check_loop m x d false errs)))
        (check_loop m y d)

  -- With a maximal depth other than 0, if putting fragments in for their spreads ends within `n`
  -- levels, then with fuel `n + 1` `validateMaxDepth` returns, and it returns true if and only if
  -- some field, after the fragments are put in, is deeper than the maximal depth.
  pub validate_max_depth-TooDeep :
      (ss : Selections) (n d : ℕ) (errs : List DepthError)
      → (max =? 0) ≡ false
      → Expands fragments ss n
      → Answers (TooDeep ss d) (validate_max_depth fragments max (suc n) ss d errs)
  validate_max_depth-TooDeep ss n d errs m x =
      check_call ss n d errs m (check_loop m x d false errs)

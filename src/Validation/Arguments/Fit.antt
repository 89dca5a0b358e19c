-- ===== src/Validation/Arguments/Fit.antt =====
-- About `validateDirectives` of internal/validation/validation.go: directives and their declarations.
use graphql.Prelude.{
  ℕ, ◌≡◌, refl, String, Bool, true, false, List, [], ◌∷◌, Option, none, some, ◌==◌, Each,
  if◌then◌else◌, map,
}
use graphql.Prelude.Result.{raised, Ensures, holds, stopped, Ensures-bind, Ensures-map}
use graphql.Qerrors.{Location}
use graphql.Schema.Literals.Parse.{Literal}
use graphql.Schema.Literals.Evaluate.{Numbers, nil_dereference}
use graphql.Schema.Values.Parse.{
  Argument, ArgumentList, Directive, DirectiveList, InputValue, InputValueList, get_argument,
  get_input_value,
}
use graphql.Schema.Query.Parse.{Operation}
use graphql.Schema.Definitions.{DirectiveDecl, Schema}
use graphql.Schema.Definitions.Maps.{find}
use graphql.Schema.Definitions.Alter.{has_string, if_some, if_some-elim, if_some-cases}
use graphql.Validation.Errors.{
  Error, Owner, of_directive, unique_argument_names, unique_directives, not_unique,
}
use graphql.Validation.Values.{Verdict, valid, invalid, is_non_null}
use graphql.Validation.Values.Spec.{HasType}
use graphql.Validation.Values.Valid.{check_value-HasType}
use graphql.Validation.Context.{Context, NameSet, add_errors, validate_name, validate_literal}
use graphql.Validation.Arguments.{
  location_of, validate_argument_literals, report_value, validate_argument, validate_given,
  validate_required, validate_argument_types, validate_declared, validate_directive,
  validate_directives_loop, validate_directives,
}
use graphql.Validation.Arguments.Clean.{
  Clean, Clean-then, Clean-map, Clean-same, Clean-add_errors, Clean-add_error,
}
use graphql.Validation.Arguments.Names.{NoRepeats, AreNew, validate_name-Clean, names-step}
use graphql.Validation.Arguments.Literals.{literal-Clean}

place-Clean :
    (b : Bool) (e : Error) (c : Context)
    → Clean c (b ≡ true) (if b then c else add_errors (e ∷ []) c)
place-Clean true e c = Clean-same refl
place-Clean false e c = Clean-add_error e c

module _ (num : Numbers) (schema : Schema) where
  -- The arguments are declared and their literals have the declared types, and no required one is
  -- missing.
  abbrev pub ArgumentsFit : ArgumentList → InputValueList → Type 0
  ArgumentsFit args decls =
      Each
        (λ (arg : Argument).
          (decl : InputValue) × (get_input_value decls arg.name ≡ some decl)
          × HasType num schema.types arg.value decl.type)
        args
      × Each
          (λ (decl : InputValue).
            is_non_null decl.type ≡ true → (v : Literal) × (get_argument args decl.name ≡ some v))
          decls

  -- The directive is declared and may stand here, no argument stands twice, and the arguments fit.
  abbrev pub DirectiveFits : String → Directive → Type 0
  DirectiveFits loc d =
      NoRepeats (map (λ (a : Argument). a.name) d.args)
      × ((dd : DirectiveDecl) × (find ◌==◌ schema.declared_directives d.name ≡ some (some dd))
          × (has_string dd.locs loc ≡ true)
          × ArgumentsFit d.args dd.args)

  module _ (ops : List (ℕ × Operation)) where
    argument_literals-Clean :
        (names : NameSet) (args : ArgumentList) (c : Context)
        → Clean c
            (AreNew names (map (λ (a : Argument). a.name) args)
              × NoRepeats (map (λ (a : Argument). a.name) args))
            (validate_argument_literals num schema ops names args c)
    unfolding validate_argument_literals
    argument_literals-Clean names [] c = Clean-same (tt, tt)
    argument_literals-Clean names (arg ∷ args) c =
        let next =
          validate_name names arg.name arg.name_loc (not_unique unique_argument_names arg.name) c in
        Clean-map (λ (step, (_, rest)). names-step names next.0 arg.name arg.name_loc _ step rest)
          (Clean-then (validate_name-Clean names arg.name arg.name_loc _ c) (
            Clean-then (literal-Clean ops arg.value next.1)
              (argument_literals-Clean next.0 args (validate_literal ops arg.value next.1))))

    report_value-Ensures :
        {P : Type 0} (arg : Argument) (decl : InputValue) (errors : List Error) (verdict : Verdict)
        → (verdict ≡ valid → P)
        → (c : Context)
        → Ensures
            (Clean c P)
            (report_value num schema ops arg decl (record { errors = errors; verdict = verdict }) c)
    unfolding report_value
    report_value-Ensures arg decl errors valid h c =
        holds (Clean-map (λ _. h refl) (Clean-add_errors errors c))
    report_value-Ensures {P} arg decl errors (invalid reason) h c =
        if_some-elim (Ensures (Clean c P)) (location_of arg.value)
          (λ loc. holds (
            Clean-map (λ (_, p). p) (Clean-then (Clean-add_errors errors c) (Clean-add_error _ _))))
          stopped
    report_value-Ensures arg decl errors Verdict.bad_number h c = stopped

    abbrev ArgumentFits : InputValueList → Argument → Type 0
    ArgumentFits decls arg =
        (decl : InputValue) × (get_input_value decls arg.name ≡ some decl)
        × HasType num schema.types arg.value decl.type

    argument-Ensures :
        (owner : Owner) (decls : InputValueList) (arg : Argument) (c : Context)
        → Ensures
            (Clean c (ArgumentFits decls arg))
            (validate_argument num schema ops owner decls arg c)
    unfolding validate_argument
    argument-Ensures owner decls arg c =
        if_some-cases (Ensures (Clean c (ArgumentFits decls arg))) (get_input_value decls arg.name)
          (λ decl found.
            report_value-Ensures arg decl _ _
              (λ e. (decl, found, (check_value-HasType num schema.types _ arg.value decl.type).0 e))
              c)
          (λ absent. holds (Clean-add_error _ c))

    given-Ensures :
        (owner : Owner) (decls : InputValueList) (args : ArgumentList) (c : Context)
        → Ensures
            (Clean c (Each (ArgumentFits decls) args))
            (validate_given num schema ops owner decls args c)
    unfolding validate_given
    given-Ensures owner decls [] c = holds (Clean-same tt)
    given-Ensures owner decls (arg ∷ args) c =
        Ensures-bind (argument-Ensures owner decls arg c) λ c1 first.
          Ensures-map (given-Ensures owner decls args c1) λ c2 rest. Clean-then first rest

    abbrev IsGiven : ArgumentList → InputValue → Type 0
    IsGiven args decl =
        is_non_null decl.type ≡ true → (v : Literal) × (get_argument args decl.name ≡ some v)

    required_one-Clean :
        (b : Bool) (o : Option Literal) (e : Error) (c : Context)
        → Clean c
            (b ≡ true → (v : Literal) × (o ≡ some v))
            (if b then if_some o (λ _. c) (add_errors (e ∷ []) c) else c)
    required_one-Clean true (some v) e c = Clean-same (λ needed. (v, refl))
    required_one-Clean true none e c = Clean-add_error e c
    required_one-Clean false o e c = Clean-same (λ needed. cc)

    required-Clean :
        (owner : Owner) (loc : Location) (args : ArgumentList) (decls : InputValueList)
        (c : Context)
        → Clean c
            (Each (IsGiven args) decls)
            (validate_required num schema ops owner loc args decls c)
    unfolding validate_required
    required-Clean owner loc args [] c = Clean-same tt
    required-Clean owner loc args (decl ∷ decls) c =
        Clean-then (required_one-Clean (is_non_null decl.type) (get_argument args decl.name) _ c)
          (required-Clean owner loc args decls _)

    argument_types-Ensures :
        (args : ArgumentList) (decls : InputValueList) (loc : Location) (owner : Owner)
        (c : Context)
        → Ensures
            (Clean c (ArgumentsFit args decls))
            (validate_argument_types num schema ops args decls loc owner c)
    unfolding validate_argument_types
    argument_types-Ensures args decls loc owner c =
        Ensures-bind (given-Ensures owner decls args c)
          λ c1 first. holds (Clean-then first (required-Clean owner loc args decls c1))

    directive-Ensures :
        (loc : String) (d : Directive) (c : Context)
        → Ensures (Clean c (DirectiveFits loc d)) (validate_directive num schema ops loc d c)
    unfolding validate_directive validate_declared
    directive-Ensures loc d c =
        let literals = argument_literals-Clean [] d.args c in
        if_some-cases (Ensures (Clean c (DirectiveFits loc d)))
          (find ◌==◌ schema.declared_directives d.name)
          (λ entry found. of_entry entry found literals)
          (λ absent. holds (Clean-map (λ (_, p). p) (Clean-then literals (Clean-add_error _ _))))
      where
        of_entry :
            (entry : Option DirectiveDecl)
            → find ◌==◌ schema.declared_directives d.name ≡ some entry
            → {P : Type 0} {c' : Context}
            → Clean c (P × NoRepeats (map (λ (a : Argument). a.name) d.args)) c'
            → Ensures (Clean c (DirectiveFits loc d)) (
                if_some entry
                  (λ dd. validate_declared num schema ops loc d dd c')
                  (raised nil_dereference))
        of_entry none found literals = stopped
        of_entry (some dd) found literals =
            Ensures-map (argument_types-Ensures d.args dd.args d.name_loc (of_directive d.name) _)
              λ c' types.
                Clean-map (λ (((_, distinct), place), fit). (distinct, (dd, found, place, fit)))
                  (Clean-then (Clean-then literals (place-Clean (has_string dd.locs loc) _ _))
                    types)

    directives_loop-Ensures :
        (names : NameSet) (loc : String) (ds : DirectiveList) (c : Context)
        → Ensures
            (Clean c (
              (AreNew names (map (λ (d : Directive). d.name) ds)
                × NoRepeats (map (λ (d : Directive). d.name) ds))
              × Each (DirectiveFits loc) ds))
            (validate_directives_loop num schema ops names loc ds c)
    unfolding validate_directives_loop
    directives_loop-Ensures names loc [] c = holds (Clean-same ((tt, tt), tt))
    directives_loop-Ensures names loc (d ∷ ds) c =
        let next = validate_name names d.name d.name_loc (not_unique unique_directives d.name) c in
        Ensures-bind (directive-Ensures loc d next.1) λ c1 fits.
          Ensures-map (directives_loop-Ensures next.0 loc ds c1) λ c2 rest.
            Clean-map
              (λ ((step, here), (news, others)).
                (names-step names next.0 d.name d.name_loc _ step news, (here, others)))
              (Clean-then (Clean-then (validate_name-Clean names d.name d.name_loc _ c) fits) rest)

    -- `validateDirectives` returns or panics. Where it returns, each error of the document, each error
    -- of an operation and each use of a variable that was there is there still, and new ones come
    -- behind. If it adds no error of the document, then no directive stands twice, each is declared
    -- and allowed at the location, none of its arguments stands twice, its arguments are declared and
    -- their literals have the declared types, and no argument that must not be null is missing.
    pub validate_directives-Fit :
        (loc : String) (ds : DirectiveList) (c : Context)
        → Ensures
            (Clean c (NoRepeats (map (λ (d : Directive). d.name) ds) × Each (DirectiveFits loc) ds))
            (validate_directives num schema ops loc ds c)
    unfolding validate_directives
    validate_directives-Fit loc ds c =
        Ensures-map (directives_loop-Ensures [] loc ds c)
          λ c' run. Clean-map (λ ((_, distinct), fit). (distinct, fit)) run

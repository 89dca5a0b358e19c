-- ===== src/Exec/Selection/Sound.antt =====
-- About `Apply` of exec/field_selection.go.
use graphql.Prelude.{
  ℕ, suc, ◌≡◌, refl, String, Bool, true, false, List, [], ◌∷◌, Option, none, some, ◌==◌,
  if◌then◌else◌, Each, ==_iff, subst, sym,
}
use graphql.Prelude.Result
use graphql.Prelude.Result.{
  Result, ok, raised, out_of_fuel, Ensures, holds, stopped, Ensures-bind, Ensures-map, Ensures-if,
  Ensures-if_true,
}
use graphql.Lexer.Parser.{GoLibrary}
use graphql.Schema.Types.Parse.{NamedType, SchemaType, type_name, named, list, non_null}
use graphql.Schema.Literals.Evaluate.{Numbers, Value}
use graphql.Schema.Values.Parse.{DirectiveList}
use graphql.Schema.Query.Parse.{
  Selection, Selections, field_selection, inline_fragment, fragment_spread, selection, FragmentDecl,
  FieldHead, TypeName,
}
use graphql.Schema.Definitions.{
  Field, FieldList, TypeDef, scalar_def, object_def, interface_def, union_def, enum_def, input_def,
}
use graphql.Schema.Definitions.Maps.{find}
use graphql.Schema.Definitions.Alter.{TypeMap, get_field, if_some}
use graphql.Schema.Definitions.Resolve.{resolve}
use graphql.Validation.Depth.Spec.{Expands, nothing, a_field, inline, unknown, known}
use graphql.Validation.Fragments.Reach.{Each-append}
use graphql.Exec.Selection.{
  Crash, SelectionError, Chosen, skip_by_directive, Selected, both, errors_of, type_string, deepest,
  as_type, fields_of_def, fields_of, casts, choose, choose_field, apply_fragment, unless_skipped,
  apply_selection, apply_selections, apply,
}
use graphql.Exec.Selection.Skip.{bind-Ensures, skip-Ends}
use graphql.Exec.Selection.Spec.{
  NotSkipped, Applies, no_condition, on_itself, cast, Picks, at_head, within, spread, later,
  AllPicked,
}

module _ (go : GoLibrary) (num : Numbers) (vars : List (String × Value num)) (types : TypeMap)
    (fragments : List FragmentDecl) (can_cast : Option (Option NamedType → Bool)) where
  choose-AllPicked :
      (on : Option SchemaType) (h : FieldHead) (ss rest : Selections) (n : NamedType)
      (fields : FieldList)
      → NotSkipped go num vars types fragments can_cast h.directives
      → fields_of types on ≡ ok (n, fields)
      → AllPicked go num vars types fragments can_cast on
          (selection (field_selection h ss) rest)
          (choose go num vars types fragments can_cast n h (get_field fields h.name))
  choose-AllPicked on h ss rest n fields kept found = chosen (get_field fields h.name) refl
    where
      chosen :
          (o : Option Field)
          → get_field fields h.name ≡ o
          → AllPicked go num vars types fragments can_cast on
              (selection (field_selection h ss) rest)
              (choose go num vars types fragments can_cast n h o)
      chosen none f = tt
      chosen (some field) f = (at_head kept found f, tt)

  fields_of-Ensures :
      (on : Option SchemaType)
      → Ensures (λ (r : NamedType × FieldList). fields_of types on ≡ ok r) (fields_of types on)
  unfolding fields_of
  fields_of-Ensures none = stopped
  fields_of-Ensures (some (type_name name loc)) = stopped
  fields_of-Ensures (some (list t)) = stopped
  fields_of-Ensures (some (non_null t)) = stopped
  fields_of-Ensures (some (named n)) = of_def (find ◌==◌ types n.name)
    where
      of_def :
          (o : Option TypeDef)
          → Ensures (λ (r : NamedType × FieldList). fields_of_def n o ≡ ok r) (fields_of_def n o)
      of_def none = stopped
      of_def (some (object_def o)) = holds refl
      of_def (some (interface_def i)) = holds refl
      of_def (some (scalar_def t)) = stopped
      of_def (some (union_def t)) = stopped
      of_def (some (enum_def t)) = stopped
      of_def (some (input_def t)) = stopped

  unless_skipped-Ensures :
      (on : Option SchemaType) (ss : Selections) (ds : DirectiveList)
      (chosen : Result Crash Selected)
      → (NotSkipped go num vars types fragments can_cast ds
          → Ensures (AllPicked go num vars types fragments can_cast on ss) chosen)
      → Ensures
          (AllPicked go num vars types fragments can_cast on ss)
          (unless_skipped go num vars types fragments can_cast ds chosen)
  unless_skipped-Ensures on ss ds chosen h =
      bind-Ensures (skip-Ends go num vars ds) λ (skip, e) found _. decide skip e found
    where
      decide :
          (skip : Bool) (e : Option SelectionError)
          → skip_by_directive go num vars ds ≡ ok (skip, e)
          → Ensures (AllPicked go num vars types fragments can_cast on ss) (
              if skip
              then ok ([], errors_of e)
              else Result.bind chosen λ s. ok (both ([], errors_of e) s))
      decide true e found = holds tt
      decide false e found = Ensures-bind (h (e, found)) λ r fit. holds fit

  type_string-Ensures :
      (on : Option SchemaType)
      → Ensures {F = Crash} (λ (name : String). type_string on ≡ ok name) (type_string on)
  type_string-Ensures none = stopped
  type_string-Ensures (some (named n)) = holds refl
  type_string-Ensures (some (type_name n loc)) = holds refl
  type_string-Ensures (some (list t)) = stopped
  type_string-Ensures (some (non_null t)) = stopped

  casts-cast :
      (on : Option SchemaType) (cond : TypeName)
      → casts go num vars types fragments can_cast (resolve types cond.name) ≡ true
      → Applies go num vars types fragments can_cast on cond (as_type (resolve types cond.name))
  casts-cast on cond e = by_test can_cast refl e
    where
      by_test :
          (o : Option (Option NamedType → Bool))
          → can_cast ≡ o
          → if_some o (λ f. f (resolve types cond.name)) false ≡ true
          → Applies go num vars types fragments can_cast on cond (as_type (resolve types cond.name))
      by_test none found e = cc
      by_test (some f) found e = cast found e

  fragment-Ensures :
      (apply' : Option SchemaType → Selections → Result Crash Selected) (P : Selected → Type 0)
      (on : Option SchemaType) (cond : TypeName) (ss : Selections)
      → P ([], [])
      → ((on' : Option SchemaType)
          → Applies go num vars types fragments can_cast on cond on'
          → Ensures P (apply' on' ss))
      → Ensures P (apply_fragment go num vars types fragments can_cast apply' on cond ss)
  unfolding apply_fragment
  fragment-Ensures apply' P on cond ss none_chosen call =
      Ensures-if_true (cond.name == "") (λ e. call on (no_condition ((==_iff _ _).0 e)))
        (Ensures-bind (type_string-Ensures on) λ name e.
          Ensures-if_true (cond.name == name)
            (λ same. call on (
              on_itself
                (subst (λ n. type_string on ≡ ok n) (sym ((==_iff cond.name name).0 same)) e)))
            (Ensures-if_true (casts go num vars types fragments can_cast (resolve types cond.name))
              (λ e. call (as_type (resolve types cond.name)) (casts-cast on cond e))
              (holds none_chosen)))

  lift-AllPicked :
      (on on' : Option SchemaType) (ss all : Selections) (cs : List Chosen)
      → ((c : Chosen)
          → Picks go num vars types fragments can_cast on' ss c
          → Picks go num vars types fragments can_cast on all c)
      → Each (Picks go num vars types fragments can_cast on' ss) cs
      → Each (Picks go num vars types fragments can_cast on all) cs
  lift-AllPicked on on' ss all [] up h = tt
  lift-AllPicked on on' ss all (c ∷ cs) up (p, h) = (up c p, lift-AllPicked on on' ss all cs up h)

  lifted :
      {on on' : Option SchemaType} {ss all : Selections} {run : Result Crash Selected}
      → ((c : Chosen)
          → Picks go num vars types fragments can_cast on' ss c
          → Picks go num vars types fragments can_cast on all c)
      → Ensures (AllPicked go num vars types fragments can_cast on' ss) run
      → Ensures (AllPicked go num vars types fragments can_cast on all) run
  lifted {on} {on'} {ss} {all} up h = Ensures-map h λ r fit. lift-AllPicked on on' ss all r.0 up fit

  -- One round of the loop, and the rest.
  one_round :
      (on : Option SchemaType) (s : Selection) (rest : Selections)
      {first second : Result Crash Selected}
      → Ensures (AllPicked go num vars types fragments can_cast on (selection s rest)) first
      → Ensures (AllPicked go num vars types fragments can_cast on rest) second
      → Ensures
          (AllPicked go num vars types fragments can_cast on (selection s rest))
          (Result.bind first λ r. Result.bind second λ r'. ok (both r r'))
  one_round on s rest h g = Ensures-bind h λ r fit. Ensures-bind (lifted (λ c. later) g) λ r' fit'.
      holds (
        Each-append (Picks go num vars types fragments can_cast on (selection s rest)) r.0 r'.0 fit
          fit')

  loop :
      (on : Option SchemaType) (ss : Selections) (n : ℕ)
      → Expands fragments ss n
      → Ensures (AllPicked go num vars types fragments can_cast on ss) (
          apply_selections go num vars types fragments can_cast
            (apply go num vars types fragments can_cast n)
            on
            ss)
  unfolding apply_selections apply_selection apply choose_field
  loop on _ n nothing = holds tt
  loop on (selection (field_selection h ss) rest) n (a_field ex ex') =
      one_round on _ rest
        (unless_skipped-Ensures on _ _ _ λ kept.
          Ensures-bind (fields_of-Ensures on)
            λ (m, fields) found. holds (choose-AllPicked on h ss rest m fields kept found))
        (loop on rest n ex')
  loop on (selection (inline_fragment cond ds ss loc) rest) (suc n) (inline ex ex') =
      one_round on _ rest
        (unless_skipped-Ensures on _ _ _ λ kept.
          fragment-Ensures _ _ on cond ss tt
            λ on' fits. lifted (λ c. within kept fits) (loop (deepest on') ss n ex))
        (loop on rest (suc n) ex')
  loop on (selection (fragment_spread name name_loc ds loc) rest) n (unknown absent ex') =
      one_round on _ rest (unless_skipped-Ensures on _ _ _ λ kept. rw absent stopped)
        (loop on rest n ex')
  loop on (selection (fragment_spread name name_loc ds loc) rest) (suc n)
        (known {frag = frag} found ex ex') =
      one_round on _ rest
        (unless_skipped-Ensures on _ _ _ λ kept. rw found (
          fragment-Ensures _ _ on frag.on frag.selections tt λ on' fits.
            lifted (λ c. spread kept found fits) (loop (deepest on') frag.selections n ex)))
        (loop on rest (suc n) ex')

  -- If putting fragments in for their spreads ends within n levels, then with fuel n + 1 `Apply`
  -- returns or panics. Each field that it returns stands among the selections or in a fragment of
  -- theirs; `SkipByDirective` skips neither the field nor a fragment around it; each of these
  -- fragments has no type condition, or names the type that it is taken on, or one to which
  -- `CanCast` agrees, on which its own selections are then taken; and the field comes with the type
  -- that it is taken on and with the field of its name which that type has.
  pub apply-AllPicked :
      (on : Option SchemaType) (ss : Selections) (n : ℕ)
      → Expands fragments ss n
      → Ensures
          (AllPicked go num vars types fragments can_cast (deepest on) ss)
          (apply go num vars types fragments can_cast (suc n) on ss)
  unfolding apply
  apply-AllPicked on ss n ex = loop (deepest on) ss n ex

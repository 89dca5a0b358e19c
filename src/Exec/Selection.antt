-- ===== src/Exec/Selection.antt =====
-- exec/directive.go: `SkipByDirective`; exec/field_selection.go: `FieldSelectionContext.Apply`, with
-- the fuel that bounds how deep fragments lie in each other. A nil type is `none`.
pub mod Skip
pub mod Spec
pub mod Sound
use graphql.Prelude.{
  ℕ, zero, suc, String, Bool, true, false, not, ◌||◌, List, [], ◌∷◌, ◌++◌, Option, none, some, ◌==◌,
  if◌then◌else◌,
}
use graphql.Prelude.Result
use graphql.Prelude.Result.{Result, ok, raised, out_of_fuel}
use graphql.Qerrors.{Location}
use graphql.Lexer.Parser.{GoLibrary}
use graphql.Schema.Types.Parse.{
  NamedType, SchemaType, type_name, named, list, non_null, deepest_type,
}
use graphql.Schema.Literals.Parse.{Literal, nil_literal}
use graphql.Schema.Literals.Evaluate.{Numbers, Panic, Value, bool_value, evaluate}
use graphql.Schema.Values.Parse.{Directive, DirectiveList, get_argument, get_directive}
use graphql.Schema.Query.Parse.{
  Selection, Selections, field_selection, inline_fragment, fragment_spread, no_selections,
  selection, FragmentDecl, FieldHead, TypeName,
}
use graphql.Schema.Definitions.{Field, FieldList, TypeDef, object_def, interface_def, Schema}
use graphql.Schema.Definitions.Maps.{find}
use graphql.Schema.Definitions.Alter.{TypeMap, if_some, get_field}
use graphql.Schema.Definitions.Resolve.{resolve}
use graphql.Validation.Depth.{get_fragment}

-- The errors that are returned, and the panics.
pub data SelectionError : Type 0 where
  if_missing if_not_bool : Location → SelectionError
  field_not_found : (name type : String) → SelectionError

pub data Crash : Type 0 where
  evaluating : Panic → Crash
  argument_not_found unexpected_type nil_type nil_fragment : Crash

-- `FieldSelection`.
pub record Chosen : Type 0 where
  pub on_type : NamedType
  pub head : FieldHead
  pub field : Field

module _ (go : GoLibrary) (num : Numbers) (vars : List (String × Value num)) where
  -- `ValuePacker.Pack` for the type `bool`, and what follows in `evaluateIf`.
  abbrev pub pack_bool :
      Location → Result Panic (Value num) → Result Crash (Bool × Option SelectionError)
  pack_bool loc (ok (bool_value b)) = ok (b, none)
  pack_bool loc (ok _) = ok (false, some (if_not_bool loc))
  pack_bool loc (raised p) = raised (evaluating p)
  pack_bool loc out_of_fuel = out_of_fuel

  abbrev pub is_nil : Literal → Bool
  is_nil nil_literal = true
  is_nil _ = false

  -- `evaluateIf`.
  unfoldable pub evaluate_if : Directive → Result Crash (Bool × Option SelectionError)
  evaluate_if d =
      if_some (get_argument d.args "if")
        (λ arg.
          if is_nil arg
          then ok (false, some (if_missing d.name_loc))
          else pack_bool d.name_loc (evaluate go num vars arg))
        (raised argument_not_found)

  abbrev pub negated : Bool × Option SelectionError → Bool × Option SelectionError
  negated (b, none) = (not b, none)
  negated (b, some e) = (false, some e)

  -- `SkipByDirective`.
  unfoldable pub skip_by_directive : DirectiveList → Result Crash (Bool × Option SelectionError)
  skip_by_directive l = if_some (get_directive l "skip") evaluate_if (
      if_some (get_directive l "include") (λ d. Result.bind (evaluate_if d) λ r. ok (negated r))
        (ok (false, none)))

-- `append(errs, err)` unless the error is nil.
abbrev pub errors_of : Option SelectionError → List SelectionError
errors_of none = []
errors_of (some e) = e ∷ []

-- What `Apply` returns.
abbrev pub Selected : Type 0
Selected = List Chosen × List SelectionError

abbrev pub both : Selected → Selected → Selected
both (cs, es) (cs', es') = (cs ++ cs', es ++ es')

-- `String` of a type that `DeepestType` returns.
abbrev pub type_string : Option SchemaType → Result Crash String
type_string none = raised nil_type
type_string (some (named n)) = ok n.name
type_string (some (type_name name loc)) = ok name
type_string (some _) = raised nil_type

abbrev pub deepest : Option SchemaType → Option SchemaType
deepest none = none
deepest (some t) = some (deepest_type t)

abbrev pub as_type : Option NamedType → Option SchemaType
as_type none = none
as_type (some n) = some (named n)

-- The fields of an object or an interface, and the named type.
abbrev pub fields_of_def : NamedType → Option TypeDef → Result Crash (NamedType × FieldList)
fields_of_def n (some (object_def o)) = ok (n, o.fields)
fields_of_def n (some (interface_def i)) = ok (n, i.fields)
fields_of_def n _ = raised unexpected_type

unfoldable pub fields_of : TypeMap → Option SchemaType → Result Crash (NamedType × FieldList)
fields_of types (some (named n)) = fields_of_def n (find ◌==◌ types n.name)
fields_of types _ = raised unexpected_type

module _ (go : GoLibrary) (num : Numbers) (vars : List (String × Value num)) (types : TypeMap)
    (fragments : List FragmentDecl) (can_cast : Option (Option NamedType → Bool)) where
  abbrev pub casts : Option NamedType → Bool
  casts t = if_some can_cast (λ f. f t) false

  -- The field that a selection chooses. The map of the selected aliases is never written, so its test
  -- is always passed.
  abbrev pub choose : NamedType → FieldHead → Option Field → Selected
  choose n h none = ([], field_not_found h.name n.name ∷ [])
  choose n h (some field) = (record { on_type = n; head = h; field = field } ∷ [], [])

  unfoldable pub choose_field : Option SchemaType → FieldHead → Result Crash Selected
  choose_field on h =
      Result.bind (fields_of types on) λ (n, fields). ok (choose n h (get_field fields h.name))

  -- The call of `SkipByDirective`, and what follows if the selection is not skipped.
  abbrev pub unless_skipped : DirectiveList → Result Crash Selected → Result Crash Selected
  unless_skipped ds chosen = Result.bind (skip_by_directive go num vars ds) λ (skip, e).
      if skip then ok ([], errors_of e) else Result.bind chosen λ s. ok (both ([], errors_of e) s)

  module _ (apply : Option SchemaType → Selections → Result Crash Selected) where
    -- `applyFragment`.
    unfoldable pub apply_fragment :
        Option SchemaType → TypeName → Selections → Result Crash Selected
    apply_fragment on cond ss =
        if cond.name == ""
        then apply on ss
        else Result.bind (type_string on) λ name.
          if cond.name == name
          then apply on ss
          else if casts (resolve types cond.name)
          then apply (as_type (resolve types cond.name)) ss
          else ok ([], [])

    -- One round of the loop of `Apply`.
    unfoldable pub apply_selection : Option SchemaType → Selection → Result Crash Selected
    apply_selection on (field_selection h ss) = unless_skipped h.directives (choose_field on h)
    apply_selection on (inline_fragment cond ds ss loc) =
        unless_skipped ds (apply_fragment on cond ss)
    apply_selection on (fragment_spread name name_loc ds loc) = unless_skipped ds (
        if_some (get_fragment fragments name) (λ frag. apply_fragment on frag.on frag.selections)
          (raised nil_fragment))

    unfoldable pub apply_selections : Option SchemaType → Selections → Result Crash Selected
    apply_selections on no_selections = ok ([], [])
    apply_selections on (selection s ss) =
        Result.bind (apply_selection on s)
          λ r. Result.bind (apply_selections on ss) λ r'. ok (both r r')

  -- `Apply`.
  unfoldable pub apply : ℕ → Option SchemaType → Selections → Result Crash Selected
  apply zero on ss = out_of_fuel
  apply (suc f) on ss = apply_selections (apply f) (deepest on) ss

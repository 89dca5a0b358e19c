-- ===== src/Exec/Selection/Spec.antt =====
-- What the selections of a query ask for, apart from how `Apply` of exec/field_selection.go goes
-- through them.
use graphql.Prelude.{◌≡◌, String, Bool, true, false, List, Option, some, Each}
use graphql.Prelude.Result.{ok}
use graphql.Qerrors.{Location}
use graphql.Lexer.Parser.{GoLibrary}
use graphql.Schema.Types.Parse.{NamedType, SchemaType}
use graphql.Schema.Literals.Evaluate.{Numbers, Value}
use graphql.Schema.Values.Parse.{DirectiveList}
use graphql.Schema.Query.Parse.{
  Selection, Selections, field_selection, inline_fragment, fragment_spread, selection, FragmentDecl,
  FieldHead, TypeName,
}
use graphql.Schema.Definitions.{Field, FieldList}
use graphql.Schema.Definitions.Alter.{TypeMap, get_field}
use graphql.Schema.Definitions.Resolve.{resolve}
use graphql.Validation.Depth.{get_fragment}
use graphql.Exec.Selection.{
  SelectionError, Chosen, skip_by_directive, Selected, type_string, deepest, as_type, fields_of,
}

module _ (go : GoLibrary) (num : Numbers) (vars : List (String × Value num)) (types : TypeMap)
    (fragments : List FragmentDecl) (can_cast : Option (Option NamedType → Bool)) where
  -- `SkipByDirective` does not say that what has these directives is skipped.
  abbrev pub NotSkipped : DirectiveList → Type 0
  NotSkipped ds = (e : Option SelectionError) × (skip_by_directive go num vars ds ≡ ok (false, e))

  -- `Applies on cond on'`: for a value of the type `on` a fragment with this type condition holds, and
  -- its selections are taken on `on'`.
  pub data Applies (on : Option SchemaType) (cond : TypeName) : Option SchemaType → Type 0 where
    no_condition : cond.name ≡ "" → Applies on cond on
    on_itself : type_string on ≡ ok cond.name → Applies on cond on
    cast :
        {f : Option NamedType → Bool}
        → can_cast ≡ some f
        → f (resolve types cond.name) ≡ true
        → Applies on cond (as_type (resolve types cond.name))

  -- `Picks on ss c`: on the type `on`, the selections ask for what `c` says: it is a field of theirs,
  -- or of a fragment of theirs whose type condition holds, neither the field nor a fragment around it
  -- is skipped, and the type that it is taken on has a field of its name.
  pub data Picks : Option SchemaType → Selections → Chosen → Type 0 where
    at_head :
        {on : Option SchemaType} {h : FieldHead} {ss rest : Selections} {n : NamedType}
        {fields : FieldList} {field : Field}
        → NotSkipped h.directives
        → fields_of types on ≡ ok (n, fields)
        → get_field fields h.name ≡ some field
        → Picks on
            (selection (field_selection h ss) rest)
            (record { on_type = n; head = h; field = field })
    within :
        {on : Option SchemaType} {cond : TypeName} {ds : DirectiveList} {ss : Selections}
        {loc : Location} {rest : Selections} {on' : Option SchemaType} {c : Chosen}
        → NotSkipped ds
        → Applies on cond on'
        → Picks (deepest on') ss c
        → Picks on (selection (inline_fragment cond ds ss loc) rest) c
    spread :
        {on : Option SchemaType} {name : String} {name_loc : Location} {ds : DirectiveList}
        {loc : Location} {rest : Selections} {frag : FragmentDecl} {on' : Option SchemaType}
        {c : Chosen}
        → NotSkipped ds
        → get_fragment fragments name ≡ some frag
        → Applies on frag.on on'
        → Picks (deepest on') frag.selections c
        → Picks on (selection (fragment_spread name name_loc ds loc) rest) c
    later :
        {on : Option SchemaType} {s : Selection} {rest : Selections} {c : Chosen}
        → Picks on rest c
        → Picks on (selection s rest) c

  abbrev pub AllPicked : Option SchemaType → Selections → Selected → Type 0
  AllPicked on ss r = Each (Picks on ss) r.0

-- ===== src/Validation/Depth/Spec.antt =====
-- The depth of a query, as an independent description.
use graphql.Prelude.{ℕ, suc, ◌+◌, ◌≡◌, List, none, some}
use graphql.Schema.Query.Parse.{
  Selections, field_selection, inline_fragment, fragment_spread, no_selections, selection,
  FragmentDecl, FieldHead, TypeName, Selection,
}
use graphql.Schema.Values.Parse.{DirectiveList}
use graphql.Qerrors.{Location}
use graphql.Prelude.{String}
use graphql.Validation.Depth.{get_fragment}

module _ (fragments : List FragmentDecl) where
  -- Selections at depth `d` hold a field at depth `k`, once fragments are put in for their spreads.
  pub data FieldAt : Selections → ℕ → ℕ → Type 0 where
    here :
        {h : FieldHead} {ss rest : Selections} {d k : ℕ}
        → d ≡ k
        → FieldAt (selection (field_selection h ss) rest) d k
    below :
        {h : FieldHead} {ss rest : Selections} {d k : ℕ}
        → FieldAt ss (d + 1) k
        → FieldAt (selection (field_selection h ss) rest) d k
    within :
        {on : TypeName} {ds : DirectiveList} {loc : Location} {ss rest : Selections} {d k : ℕ}
        → FieldAt ss d k
        → FieldAt (selection (inline_fragment on ds ss loc) rest) d k
    spread :
        {name : String} {name_loc loc : Location} {ds : DirectiveList} {rest : Selections}
        {frag : FragmentDecl} {d k : ℕ}
        → get_fragment fragments name ≡ some frag
        → FieldAt frag.selections d k
        → FieldAt (selection (fragment_spread name name_loc ds loc) rest) d k
    later :
        {s : Selection} {rest : Selections} {d k : ℕ}
        → FieldAt rest d k
        → FieldAt (selection s rest) d k

  -- Putting fragments in for their spreads ends, with `n` levels of nesting at most.
  pub data Expands : Selections → ℕ → Type 0 where
    nothing : {n : ℕ} → Expands no_selections n
    a_field :
        {h : FieldHead} {ss rest : Selections} {n : ℕ}
        → Expands ss n
        → Expands rest (suc n)
        → Expands (selection (field_selection h ss) rest) (suc n)
    inline :
        {on : TypeName} {ds : DirectiveList} {loc : Location} {ss rest : Selections} {n : ℕ}
        → Expands ss n
        → Expands rest (suc n)
        → Expands (selection (inline_fragment on ds ss loc) rest) (suc n)
    unknown :
        {name : String} {name_loc loc : Location} {ds : DirectiveList} {rest : Selections} {n : ℕ}
        → get_fragment fragments name ≡ none
        → Expands rest (suc n)
        → Expands (selection (fragment_spread name name_loc ds loc) rest) (suc n)
    known :
        {name : String} {name_loc loc : Location} {ds : DirectiveList} {rest : Selections} {n : ℕ}
        {frag : FragmentDecl}
        → get_fragment fragments name ≡ some frag
        → Expands frag.selections n
        → Expands rest (suc n)
        → Expands (selection (fragment_spread name name_loc ds loc) rest) (suc n)

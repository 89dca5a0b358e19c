-- ===== src/Validation/Fragments/Reach.antt =====
-- The fragments that spreads reach, and the count of those that are not marked.
use graphql.Prelude.{
  ℕ, suc, ◌<◌, ◌≤◌, ◌≡◌, refl, sym, ap, String, Bool, true, false, List, [], ◌∷◌, ◌++◌,
  append_assoc, append-nil, ◌∙◌, some, if◌then◌else◌, ◌==◌, ==_iff, Bool-cases, inl, inr, Each,
  arith, length, subst,
}
use graphql.Qerrors.{Location}
use graphql.Schema.Values.Parse.{DirectiveList}
use graphql.Schema.Query.Parse.{
  Selection, Selections, field_selection, inline_fragment, fragment_spread, selection, FragmentDecl,
  FieldHead, TypeName,
}
use graphql.Schema.Definitions.Alter.{has_string}
use graphql.Validation.Depth.{get_fragment}

-- `Spreads ss name`: a spread of the name stands among the selections, or inside one of them.
pub data Spreads : Selections → String → Type 0 where
  here :
      {name : String} {name_loc : Location} {ds : DirectiveList} {loc : Location}
      {rest : Selections}
      → Spreads (selection (fragment_spread name name_loc ds loc) rest) name
  in_field :
      {h : FieldHead} {ss rest : Selections} {name : String}
      → Spreads ss name
      → Spreads (selection (field_selection h ss) rest) name
  in_inline :
      {on : TypeName} {ds : DirectiveList} {ss : Selections} {loc : Location} {rest : Selections}
      {name : String}
      → Spreads ss name
      → Spreads (selection (inline_fragment on ds ss loc) rest) name
  in_rest :
      {s : Selection} {rest : Selections} {name : String}
      → Spreads rest name
      → Spreads (selection s rest) name

module _ (fragments : List FragmentDecl) where
  -- `Reached ss name`: a spread in the selections, or in a fragment that is reached, is of the
  -- fragment of that name.
  pub data Reached : Selections → String → Type 0 where
    direct :
        {ss : Selections} {name : String} {frag : FragmentDecl}
        → Spreads ss name
        → get_fragment fragments name ≡ some frag
        → Reached ss frag.name
    through :
        {ss : Selections} {name : String} {frag : FragmentDecl} {n : String}
        → Spreads ss name
        → get_fragment fragments name ≡ some frag
        → Reached frag.selections n
        → Reached ss n

  pub lift-Reached :
      {ss tt' : Selections} {n : String}
      → ((name : String) → Spreads ss name → Spreads tt' name)
      → Reached ss n
      → Reached tt' n
  lift-Reached up (direct s e) = direct (up _ s) e
  lift-Reached up (through s e r) = through (up _ s) e r

-- How many fragments are not marked.
unfoldable pub unmarked : List String → List FragmentDecl → ℕ
unmarked used [] = 0
unmarked used (f ∷ l) =
    let rest = unmarked used l in if has_string used f.name then rest else suc rest

pub unmarked-length : (used : List String) (l : List FragmentDecl) → unmarked used l ≤ length l
unfolding unmarked
unmarked-length used [] = omega arith
unmarked-length used (f ∷ l) = elim (Bool-cases (has_string used f.name)) [
  | inl e ↦ rw e (omega (arith, unmarked-length used l))
  | inr e ↦ rw e (omega (arith, unmarked-length used l))
]

-- One round of the count, where a name is marked.
count-le :
    (b c : Bool) (x y : ℕ)
    → x ≤ y
    → (if if b then true else c then x else suc x) ≤ (if c then y else suc y)
count-le true true x y h = h
count-le true false x y h = omega (arith, h)
count-le false true x y h = h
count-le false false x y h = omega (arith, h)

count-lt :
    (b c : Bool) (x y : ℕ)
    → x < y
    → (if if b then true else c then x else suc x) < (if c then y else suc y)
count-lt true true x y h = h
count-lt true false x y h = omega (arith, h)
count-lt false true x y h = h
count-lt false false x y h = omega (arith, h)

pub unmarked-mark :
    (n : String) (used : List String) (l : List FragmentDecl)
    → unmarked (n ∷ used) l ≤ unmarked used l
unfolding unmarked has_string
unmarked-mark n used [] = omega arith
unmarked-mark n used (f ∷ l) =
    count-le (n == f.name) (has_string used f.name) _ _ (unmarked-mark n used l)

pub unmarked-append :
    (extra used : List String) (l : List FragmentDecl)
    → unmarked (extra ++ used) l ≤ unmarked used l
unmarked-append [] used l = omega arith
unmarked-append (n ∷ extra) used l =
    omega (arith, unmarked-append extra used l, unmarked-mark n (extra ++ used) l)

pub unmarked-found :
    (name : String) (frag : FragmentDecl) (used : List String) (l : List FragmentDecl)
    → get_fragment l name ≡ some frag
    → has_string used frag.name ≡ false
    → unmarked (frag.name ∷ used) l < unmarked used l
unfolding unmarked has_string get_fragment
unmarked-found name frag used [] e u = cc
unmarked-found name frag used (f ∷ l) e u = elim (Bool-cases (f.name == name)) [
  | inl same ↦
      let is_frag : f ≡ frag = cc in
      let names : frag.name ≡ f.name = cc in
      let here : (frag.name == f.name) ≡ true = (==_iff frag.name f.name).1 names in
      let fresh : has_string used f.name ≡ false = cc in
      rw (here, fresh) (omega (arith, unmarked-mark frag.name used l))
  | inr other ↦
      count-lt (frag.name == f.name) (has_string used f.name) _ _
        (unmarked-found name frag used l (cc) u)
]

-- More fragments are marked, and each of them has the property.
pub Adds : (String → Type 0) → List String → List String → Type 0
Adds P used used' = (extra : List String) × (used' ≡ extra ++ used) × Each P extra

pub Adds-none : (P : String → Type 0) (used : List String) → Adds P used used
unfolding Adds
Adds-none P used = ([], refl, tt)

pub Each-append :
    {A : Type 0} (P : A → Type 0) (l k : List A) → Each P l → Each P k → Each P (l ++ k)
Each-append P [] k h g = g
Each-append P (a ∷ l) k h g = (h.0, Each-append P l k h.1 g)

pub Each-weaken :
    (P Q : String → Type 0) (l : List String) → ((n : String) → P n → Q n) → Each P l → Each Q l
Each-weaken P Q [] f h = tt
Each-weaken P Q (a ∷ l) f h = (f a h.0, Each-weaken P Q l f h.1)

pub Adds-then :
    (P Q R : String → Type 0) (used used1 used2 : List String)
    → ((n : String) → P n → R n)
    → ((n : String) → Q n → R n)
    → Adds P used used1
    → Adds Q used1 used2
    → Adds R used used2
unfolding Adds
Adds-then P Q R used used1 used2 f g (extra, e, h) (more, e', h') = (
  more ++ extra,
  e' ∙ ap (λ l. more ++ l) e ∙ sym (append_assoc more extra used),
  Each-append R more extra (Each-weaken Q R more g h') (Each-weaken P R extra f h),
)

pub Adds-all : (P : String → Type 0) (used : List String) → Adds P [] used → Each P used
unfolding Adds
Adds-all P used (extra, e, h) = subst (λ l. Each P l) (sym (e ∙ append-nil extra)) h

pub Adds-mark :
    (P Q : String → Type 0) (n : String) (used used1 : List String)
    → Q n
    → ((m : String) → P m → Q m)
    → Adds P (n ∷ used) used1
    → Adds Q used used1
unfolding Adds
Adds-mark P Q n used used1 q f (extra, e, h) = (
  extra ++ n ∷ [],
  e ∙ sym (append_assoc extra (n ∷ []) used),
  Each-append Q extra (n ∷ []) (Each-weaken P Q extra f h) (q, tt),
)

pub Adds-unmarked :
    (P : String → Type 0) (used used' : List String) (l : List FragmentDecl)
    → Adds P used used'
    → unmarked used' l ≤ unmarked used l
unfolding Adds
Adds-unmarked P used used' l (extra, e, h) =
    subst (λ k. unmarked k l ≤ unmarked used l) (sym e) (unmarked-append extra used l)

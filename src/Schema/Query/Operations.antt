-- ===== src/Schema/Query/Operations.antt =====
-- schema/query.go: `OperationList.Get` and `QueryDocument.GetOperation`.
use graphql.Prelude.{
  suc, String, true, false, ◌≡◌, ◌≢◌, ◌↔◌, refl, List, [], ◌∷◌, Option, none, some, length, ltb,
  ◌=?◌, ◌==◌, ==_iff, if◌then◌else◌, Bool-cases, inl, inr, subst, sym, ◌∙◌, ap, arith,
}
use graphql.Prelude.Result.{Result, ok, raised}
use graphql.Schema.Query.Parse.{Operation, QueryDocument}

-- The errors of `GetOperation`.
pub data OperationError : Type 0 where
  no_operations more_than_one : OperationError
  no_operation_with_name : String → OperationError

-- `OperationList.Get`.
unfoldable pub get_named : List Operation → String → Option Operation
get_named [] name = none
get_named (op ∷ l) name = if op.name == name then some op else get_named l name

-- The `range` loop that returns in its first round.
unfoldable pub first_or :
    List Operation → Result OperationError Operation → Result OperationError Operation
first_or [] otherwise = otherwise
first_or (op ∷ _) otherwise = ok op

-- The end of `GetOperation`.
abbrev found : Option Operation → String → Result OperationError Operation
found none name = raised (no_operation_with_name name)
found (some op) name = ok op

-- `GetOperation`, on the operations of the document.
unfoldable pub get_from : List Operation → String → Result OperationError Operation
unfolding first_or get_named
get_from ops name =
    if length ops =? 0
    then raised no_operations
    else if name == ""
    then (if ltb 1 (length ops)
        then raised more_than_one
        else first_or ops (found (get_named ops name) name))
    else found (get_named ops name) name

-- `QueryDocument.GetOperation`.
unfoldable pub get_operation : QueryDocument → String → Result OperationError Operation
unfolding get_from
get_operation d name = get_from d.operations name

-- The first operation of that name.
pub data FirstNamed (name : String) (op : Operation) : List Operation → Type 0 where
  here : {o : Operation} {l : List Operation} → o ≡ op → o.name ≡ name → FirstNamed name op (o ∷ l)
  there :
      {o : Operation} {l : List Operation}
      → o.name ≢ name
      → FirstNamed name op l
      → FirstNamed name op (o ∷ l)

-- What a request for `name` runs: without a name, the only operation, whatever its name is.
pub data Runs (ops : List Operation) (name : String) (op : Operation) : Type 0 where
  the_only : name ≡ "" → ops ≡ op ∷ [] → Runs ops name op
  the_named : name ≢ "" → FirstNamed name op ops → Runs ops name op

==-ne : (s u : String) → s ≢ u → (s == u) ≡ false
==-ne s u n = elim (Bool-cases (s == u)) [ inl e ↦ absurd (n ((==_iff s u).0 e)) | inr e ↦ e ]

get_named_sound :
    (l : List Operation) (name : String) (op : Operation)
    → get_named l name ≡ some op
    → FirstNamed name op l
unfolding get_named
get_named_sound [] name op h = cc
get_named_sound (o ∷ l) name op h = elim (Bool-cases (o.name == name)) [
  | inl e ↦ here (cc) ((==_iff o.name name).0 e)
  | inr e ↦
      there (λ s. absurd (let yes = (==_iff o.name name).1 s in cc))
        (get_named_sound l name op (cc))
]

get_named_complete :
    (name : String) (op : Operation) {l : List Operation}
    → FirstNamed name op l
    → get_named l name ≡ some op
unfolding get_named
get_named_complete name op (here {o} s e) = rw ((==_iff o.name name).1 e, s) refl
get_named_complete name op (there {o} n w) = rw (==-ne o.name name n) (get_named_complete name op w)

found-ok :
    (o : Option Operation) (name : String) (op : Operation) → found o name ≡ ok op → o ≡ some op
found-ok none name op h = cc
found-ok (some o) name op h = cc

get_from-given :
    (o : Operation) (l : List Operation) (name : String)
    → name ≢ ""
    → get_from (o ∷ l) name ≡ found (get_named (o ∷ l) name) name
unfolding get_from
get_from-given o l name n =
    let some_operations : (suc (length l) =? 0) ≡ false = ground arith in
    rw (some_operations, ==-ne name "" n) refl

get_from-two :
    (o o' : Operation) (l : List Operation) → get_from (o ∷ o' ∷ l) "" ≡ raised more_than_one
unfolding get_from
get_from-two o o' l =
    let some_operations : (suc (suc (length l)) =? 0) ≡ false = ground arith in
    let two : ltb 1 (suc (suc (length l))) ≡ true = ground arith in rw (some_operations, two) refl

get_from_named :
    (ops : List Operation) (name : String) (op : Operation)
    → name ≢ ""
    → (get_from ops name ≡ ok op) ↔ FirstNamed name op ops
unfolding get_from get_named
get_from_named [] name op n = (λ h. cc, λ h. elim h [ ])
get_from_named (o ∷ l) name op n = (
  λ h.
      get_named_sound (o ∷ l) name op
        (found-ok (get_named (o ∷ l) name) name op (sym (get_from-given o l name n) ∙ h)),
  λ w. get_from-given o l name n ∙ ap (λ r. found r name) (get_named_complete name op w),
)

get_from_unnamed :
    (ops : List Operation) (op : Operation) → (get_from ops "" ≡ ok op) ↔ (ops ≡ op ∷ [])
unfolding get_from first_or
get_from_unnamed [] op = (λ h. cc, λ h. cc)
get_from_unnamed (o ∷ []) op = (λ h. cc, λ h. cc)
get_from_unnamed (o ∷ o' ∷ l) op = (λ h. absurd (let two = get_from-two o o' l in cc), λ h. cc)

-- `GetOperation` returns an operation exactly when it is the one that a request for this name runs:
-- without a name the only operation of the document, and with a name the first one of that name.
pub get_operation_iff :
    (d : QueryDocument) (name : String) (op : Operation)
    → (get_operation d name ≡ ok op) ↔ Runs d.operations name op
unfolding get_operation
get_operation_iff d name op = elim (Bool-cases (name == "")) [
  | inl e ↦
      let empty = (==_iff name "").0 e in
      (
        λ h. the_only empty (
            (get_from_unnamed d.operations op).0
              (subst (λ n. get_from d.operations n ≡ ok op) empty h)),
        λ r. elim r [
          | the_only _ only ↦ rw empty ((get_from_unnamed d.operations op).1 only)
          | the_named n _ ↦ absurd (n empty)
        ],
      )
  | inr e ↦
      let given : name ≢ "" = λ s. absurd (let yes = (==_iff name "").1 s in cc) in
      (
        λ h. the_named given ((get_from_named d.operations name op given).0 h),
        λ r. elim r [
          | the_only s _ ↦ absurd (given s)
          | the_named n w ↦ (get_from_named d.operations name op given).1 w
        ],
      )
]

-- ===== src/Schema/Literals/Outcome.antt =====
-- About `Evaluate` of schema/literals.go: what it returns, and when it panics.
use graphql.Prelude.{
  ◌≡◌, ◌≢◌, refl, sym, ap, ◌∙◌, subst, String, Bool, true, false, List, [], ◌∷◌, Option, none, some,
  ◌==◌, ==_iff, if◌then◌else◌, ltb, Bool-cases, inl, inr, arith,
}
use Prim.Native.String.{len}
use graphql.Prelude.Result
use graphql.Prelude.Result.{Result, ok, raised}
use graphql.Lexer.Token.{TokenKind, eof, ident, int, float, string, block_string, comment, char}
use graphql.Lexer.Parser.{GoLibrary}
use graphql.Qerrors.{Location}
use graphql.Schema.Literals.Parse.{
  Literal, basic_lit, list_lit, object_lit, null_lit, variable, nil_literal, Literals, no_literals,
  literal, Fields, no_fields, field,
}
use graphql.Schema.Literals.Evaluate.{
  Numbers, Panic, Value, bool_value, Members, no_members, member, assign_member, or_panic,
  evaluate_basic, evaluate, evaluate_entries, evaluate_fields,
}
use graphql.Schema.Literals.Meaning.{
  or_other, member_of, last_given, BasicMeans, an_int, a_float, a_string, a_block, is_true,
  is_false, an_enum, BasicFails, no_int, no_float, no_string, short_block, no_end, no_comment,
  no_char, Means, basic, entries, members, is_null, of_variable, EntriesMean, no_entry, an_entry,
  FieldsMean, no_field, Fails, in_list, in_object, nil_fails, EntryFails, here, behind, FieldFails,
  field_here, field_behind,
}
use graphql.Schema.Literals.Meaning

-- A run that returns what has one property, or panics with what has the other.
pub data Settled {ℓ κ} {A : Type 0} (P : A → Type ℓ) (Q : Panic → Type κ)
    : Result Panic A → Type (ℓ ⊔ κ) where
  returns : {v : A} → P v → Settled P Q (ok v)
  panics : {p : Panic} → Q p → Settled P Q (raised p)

Settled-bind {ℓ κ ℓ' κ'} :
    {A B : Type 0} {P : A → Type ℓ} {Q : Panic → Type κ} {P' : B → Type ℓ'} {Q' : Panic → Type κ'}
    {run : Result Panic A} {next : A → Result Panic B}
    → Settled P Q run
    → ((p : Panic) → Q p → Q' p)
    → ((v : A) → P v → Settled P' Q' (next v))
    → Settled P' Q' (Result.bind run next)
Settled-bind (returns {v} h) stop go_on = go_on v h
Settled-bind (panics {p} h) stop go_on = panics (stop p h)

or_panic-Settled {ℓ κ} :
    {A B : Type 0} {P : B → Type ℓ} {Q : Panic → Type κ} (p : Panic) (o : Option A) (f : A → B)
    → ((a : A) → o ≡ some a → P (f a))
    → (o ≡ none → Q p)
    → Settled P Q (or_panic p o f)
or_panic-Settled p none f h g = panics (g refl)
or_panic-Settled p (some a) f h g = returns (h a refl)

if-Settled {ℓ κ} :
    {A : Type 0} {P : A → Type ℓ} {Q : Panic → Type κ} (b : Bool) {x y : Result Panic A}
    → (b ≡ true → Settled P Q x)
    → (b ≡ false → Settled P Q y)
    → Settled P Q (if b then x else y)
if-Settled true h g = h refl
if-Settled false h g = g refl

or_other_assoc :
    {A : Type 0} (a b c : Option A) → or_other (or_other a b) c ≡ or_other a (or_other b c)
or_other_assoc none b c = refl
or_other_assoc (some a) b c = refl

or_other-none : {A : Type 0} (a : Option A) → or_other a none ≡ a
or_other-none none = refl
or_other-none (some a) = refl

differs : (s t : String) → (s == t) ≡ false → s ≢ t
differs s t ne e = let same = (==_iff s t).1 e in cc

module _ {num : Numbers} where
  member_of-assign :
      (k : String) (v : Value num) (m : Members num) (name : String)
      → member_of (assign_member k v m) name
        ≡ or_other (if k == name then some v else none) (member_of m name)
  unfolding member_of assign_member
  member_of-assign k v no_members name = elim (Bool-cases (k == name)) [
    | inl e ↦ ground arith
    | inr e ↦ ground arith
  ]
  member_of-assign k v (member n w m) name =
      let rest = member_of-assign k v m name in
      elim (Bool-cases (n == k)) [
        | inl nk ↦
            let same : (n == name) ≡ (k == name) = ap (λ x. x == name) ((==_iff n k).0 nk) in
            elim (Bool-cases (k == name)) [ inl e ↦ ground arith | inr e ↦ ground arith ]
        | inr nk ↦ elim (Bool-cases (n == name)) [
          | inl e ↦
              let kn : (k == name) ≡ false = elim (Bool-cases (k == name)) [
                | inl f ↦
                    let nk' = (==_iff n k).1 ((==_iff n name).0 e ∙ sym ((==_iff k name).0 f)) in cc
                | inr f ↦ f
              ] in
              ground arith
          | inr e ↦ ground (arith, rest)
        ]
      ]

module _ (go : GoLibrary) (num : Numbers) where
  basic-Settled :
      (kind : TokenKind) (text : String)
      → Settled
          (BasicMeans go num kind text)
          (BasicFails go num kind text)
          (evaluate_basic go num kind text)
  unfolding evaluate_basic
  basic-Settled int text = or_panic-Settled _ (num.parse_int text) _ (λ a. an_int) no_int
  basic-Settled float text =
      or_panic-Settled _ (num.parse_float text) _ (λ a. Meaning.a_float) no_float
  basic-Settled string text = or_panic-Settled _ (go.unquote text) _ (λ a. a_string) no_string
  basic-Settled block_string text =
      if-Settled (ltb (len text) 6) (λ e. panics (short_block e)) (λ e. returns (a_block e))
  basic-Settled ident text =
      if-Settled (text == "true")
        (λ e. returns (
          subst (λ x. BasicMeans go num ident x (bool_value true)) (sym ((==_iff text _).0 e))
            is_true))
        (λ ne.
          if-Settled (text == "false")
            (λ e. returns (
              subst (λ x. BasicMeans go num ident x (bool_value false)) (sym ((==_iff text _).0 e))
                is_false))
            (λ ne'. returns (an_enum (differs text _ ne) (differs text _ ne'))))
  basic-Settled eof text = panics no_end
  basic-Settled comment text = panics no_comment
  basic-Settled (char c) text = panics no_char

  module _ (vars : List (String × Value num)) where
    -- The fields behind a map: what each name has then.
    abbrev Filled : Fields → Members num → Members num → Type 0
    Filled fs m m' =
        (given : List (String × Value num)) × FieldsMean go num vars fs given
        × ((name : String)
            → member_of m' name ≡ or_other (last_given given name) (member_of m name))

    Filled-step :
        (name : String) (loc : Location) (v : Literal) (fs : Fields) (w : Value num)
        (m m' : Members num)
        → Means go num vars v w
        → Filled fs (assign_member name w m) m'
        → Filled (field name loc v fs) m m'
    unfolding last_given
    Filled-step name loc v fs w m m' means (given, rest, at) = (
      (name, w) ∷ given,
      Meaning.a_field means rest,
      λ x.
          at x
          ∙ ap (or_other (last_given given x)) (member_of-assign name w m x)
          ∙ sym (or_other_assoc (last_given given x) _ (member_of m x)),
    )

    if_basic :
        (kind : TokenKind) (text : String) (loc : Location) (r : Result Panic (Value num))
        → Settled (BasicMeans go num kind text) (BasicFails go num kind text) r
        → Settled
            (Means go num vars (basic_lit kind text loc))
            (Fails go num vars (basic_lit kind text loc))
            r
    if_basic kind text loc _ (returns h) = returns (Means.basic h)
    if_basic kind text loc _ (panics h) = panics (Fails.basic h)

    shifted :
        (name : String) (loc : Location) (v : Literal) (fs : Fields) (w : Value num)
        (m : Members num)
        → Means go num vars v w
        → (r : Result Panic (Members num))
        → Settled (Filled fs (assign_member name w m)) (FieldFails go num vars fs) r
        → Settled (Filled (field name loc v fs) m) (FieldFails go num vars (field name loc v fs)) r
    shifted name loc v fs w m h _ (returns {v = m'} filled) =
        returns (Filled-step name loc v fs w m m' h filled)
    shifted name loc v fs w m h _ (panics fails) = panics (field_behind h fails)

    mutual
      unfolding evaluate evaluate_entries evaluate_fields last_given member_of

      settled :
          (l : Literal)
          → Settled (Means go num vars l) (Fails go num vars l) (evaluate go num vars l)
      settled (basic_lit kind text loc) =
          if_basic kind text loc (evaluate_basic go num kind text) (basic-Settled kind text)
      settled (list_lit vs loc) =
          Settled-bind (entries-Settled vs) (λ p. in_list) λ ws h. returns (entries h)
      settled (object_lit fs loc) =
          Settled-bind (fields-Settled fs no_members) (λ p. in_object)
            λ m (given, h, at).
              returns (members h (λ name. at name ∙ or_other-none (last_given given name)))
      settled (null_lit loc) = returns is_null
      settled (variable name loc) = returns of_variable
      settled nil_literal = panics nil_fails

      entries-Settled :
          (vs : Literals)
          → Settled
              (EntriesMean go num vars vs)
              (EntryFails go num vars vs)
              (evaluate_entries go num vars vs)
      entries-Settled no_literals = returns no_entry
      entries-Settled (literal v vs) =
          Settled-bind (settled v) (λ p. here)
            λ w h.
              Settled-bind (entries-Settled vs) (λ p. behind h) λ ws hs. returns (an_entry h hs)

      fields-Settled :
          (fs : Fields) (m : Members num)
          → Settled (Filled fs m) (FieldFails go num vars fs) (evaluate_fields go num vars fs m)
      fields-Settled no_fields m = returns ([], no_field, λ name. refl)
      fields-Settled (field name loc v fs) m =
          Settled-bind (settled v) (λ p. field_here)
            λ w h. shifted name loc v fs w m h _ (fields-Settled fs (assign_member name w m))

    -- `Evaluate` of a literal returns what the literal stands for, for any values of the variables, or
    -- panics for the first part of it that stands for nothing: a number or a text that Go's functions
    -- do not read, a block string of fewer than six bytes, a token of another kind, or nil.
    pub evaluate-Settled :
        (l : Literal) → Settled (Means go num vars l) (Fails go num vars l) (evaluate go num vars l)
    evaluate-Settled l = settled l

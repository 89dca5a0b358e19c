-- ===== src/Schema/Definitions/Alter/Undo.antt =====
-- About the changes of `@graphql` in schema/schema.go: an addition and a removal of the same.
use graphql.Prelude.{
  ◌≡◌, refl, ap, ◌∙◌, String, Bool, true, false, not, List, [], ◌∷◌, ◌++◌, append-nil, none, ◌==◌,
  ==_iff, Bool-cases, inl, inr, Each, if◌then◌else◌,
}
use graphql.Schema.Values.Parse.{Directive, DirectiveList, get_directive}
use graphql.Schema.Definitions.{Field, FieldList, Object}
use graphql.Schema.Definitions.Alter.{
  select, get_field, has_string, is_none, add_desc, add_to_object, drop_from_object,
}

module _ {A : Type 0} (keep : A → Bool) where
  select-append : (l k : List A) → select keep (l ++ k) ≡ select keep l ++ select keep k
  unfolding select
  select-append [] k = refl
  select-append (a ∷ l) k = elim (Bool-cases (keep a)) [
    | inl e ↦ rw e (ap (λ r. a ∷ r) (select-append l k))
    | inr e ↦ rw e (select-append l k)
  ]

  select-all : (l : List A) → Each (λ a. keep a ≡ true) l → select keep l ≡ l
  unfolding select
  select-all [] h = refl
  select-all (a ∷ l) h = rw h.0 (ap (λ r. a ∷ r) (select-all l h.1))

  select-none : (l : List A) → Each (λ a. keep a ≡ false) l → select keep l ≡ []
  unfolding select
  select-none [] h = refl
  select-none (a ∷ l) h = rw h.0 (select-none l h.1)

  -- What is added is selected away, and the rest stays.
  select-undo :
      (l k : List A)
      → Each (λ a. keep a ≡ true) l
      → Each (λ a. keep a ≡ false) k
      → select keep (l ++ k) ≡ l
  select-undo l k h g = select-append l k ∙ rw (select-all l h, select-none k g) (append-nil l)

Each-weaken :
    {A : Type 0} (P Q : A → Type 0) (l : List A) → ((a : A) → P a → Q a) → Each P l → Each Q l
Each-weaken P Q [] f h = tt
Each-weaken P Q (a ∷ l) f h = (f a h.0, Each-weaken P Q l f h.1)

-- A search by name: it finds the name of each item of the list.
module _ {A : Type 0} (name : A → String) (missing : List A → String → Bool)
    (missing-cons : (a : A) (l : List A) (n : String)
      → missing (a ∷ l) n ≡ (if name a == n then false else missing l n)) where
  missing-own : (l : List A) → Each (λ a. missing l (name a) ≡ false) l
  missing-own [] = tt
  missing-own (a ∷ l) = (
    missing-cons a l (name a) ∙ rw ((==_iff (name a) (name a)).1 refl) refl,
    Each-weaken _ _ l
        (λ b h. missing-cons a l (name b) ∙ keep_missing (name a == name b) (missing l (name b)) h)
        (missing-own l),
  )
    where
      keep_missing : (b c : Bool) → c ≡ false → (if b then false else c) ≡ false
      keep_missing true c h = refl
      keep_missing false c h = h

  undo :
      (l k : List A)
      → Each (λ a. missing k (name a) ≡ true) l
      → select (λ a. missing k (name a)) (l ++ k) ≡ l
  undo l k h = select-undo (λ a. missing k (name a)) l k h (missing-own k)

field_missing : FieldList → String → Bool
field_missing l n = is_none (get_field l n)

directive_missing : DirectiveList → String → Bool
directive_missing l n = is_none (get_directive l n)

name_missing : List String → String → Bool
name_missing l n = not (has_string l n)

field_missing-cons :
    (f : Field) (l : FieldList) (n : String)
    → field_missing (f ∷ l) n ≡ (if f.name == n then false else field_missing l n)
unfolding field_missing get_field
field_missing-cons f l n = elim (Bool-cases (f.name == n)) [ inl e ↦ rw e refl | inr e ↦ rw e refl ]

directive_missing-cons :
    (d : Directive) (l : DirectiveList) (n : String)
    → directive_missing (d ∷ l) n ≡ (if d.name == n then false else directive_missing l n)
unfolding directive_missing get_directive
directive_missing-cons d l n = elim (Bool-cases (d.name == n)) [
  | inl e ↦ rw e refl
  | inr e ↦ rw e refl
]

name_missing-cons :
    (s : String) (l : List String) (n : String)
    → name_missing (s ∷ l) n ≡ (if s == n then false else name_missing l n)
unfolding name_missing has_string
name_missing-cons s l n = elim (Bool-cases (s == n)) [ inl e ↦ rw e refl | inr e ↦ rw e refl ]

-- No name of the first object stands in the second.
abbrev pub Apart : Object → Object → Type 0
Apart existing obj =
    Each (λ (d : Directive). get_directive obj.directives d.name ≡ none) existing.directives
    × Each (λ (f : Field). get_field obj.fields f.name ≡ none) existing.fields
    × Each (λ i. has_string obj.interfaces i ≡ false) existing.interfaces
    × Each (λ i. has_string obj.interface_names i ≡ false) existing.interface_names

-- If an object has no directive, field or interface under a name that stands in another one too, then
-- adding the other one and dropping it again leaves the object as it was, but for the description.
pub drop-add :
    (existing obj : Object)
    → Apart existing obj
    → drop_from_object (add_to_object existing obj) obj
      ≡ record existing { desc = add_desc existing.desc obj.desc }
unfolding drop_from_object add_to_object field_missing directive_missing name_missing
drop-add existing obj (ds, fs, is, ns) = λ i. record existing {
  directives =
      undo (λ (d : Directive). d.name) directive_missing directive_missing-cons existing.directives
        obj.directives (Each-weaken _ _ existing.directives (λ d e. ap is_none e) ds) i;
  fields =
      undo (λ (f : Field). f.name) field_missing field_missing-cons existing.fields obj.fields
        (Each-weaken _ _ existing.fields (λ f e. ap is_none e) fs) i;
  interfaces =
      undo (λ s. s) name_missing name_missing-cons existing.interfaces obj.interfaces
        (Each-weaken _ _ existing.interfaces (λ s e. ap not e) is) i;
  interface_names =
      undo (λ s. s) name_missing name_missing-cons existing.interface_names obj.interface_names
        (Each-weaken _ _ existing.interface_names (λ s e. ap not e) ns) i;
  desc = add_desc existing.desc obj.desc;
}

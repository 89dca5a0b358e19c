-- ===== src/Schema/Definitions/Alter.antt =====
-- schema/schema.go: what `parseSchema` does with an object type, by its directive `@graphql`.
pub mod Keys
pub mod Undo
use graphql.Prelude.{
  ◌≡◌, refl, String, Bool, true, false, not, List, [], ◌∷◌, ◌++◌, Option, none, some, if◌then◌else◌,
  ◌==◌,
}
use graphql.Prelude.Result
use graphql.Prelude.Result.{Result, ok, raised, out_of_fuel}
use graphql.Lexer.Parser.{
  Failure, panicked, Message, cannot_update, GoLibrary, Description, ShowType, no_description,
}
use graphql.Schema.Literals.Parse.{Literal}
use graphql.Schema.Literals.Evaluate.{Numbers, Panic, Value, string_value, evaluate}
use graphql.Schema.Values.Parse.{Directive, DirectiveList, get_argument, get_directive}
use graphql.Schema.Definitions.{Field, FieldList, Object, TypeDef, object_def}
use graphql.Schema.Definitions.Maps.{find, assign}
use Prim.Native.String.{◌++◌ as ◌concat◌}

abbrev pub TypeMap : Type 0
TypeMap = List (String × TypeDef)

-- The lists that `Select` returns.
unfoldable pub select {ℓ} : {A : Type ℓ} → (A → Bool) → List A → List A
select keep [] = []
select keep (a ∷ l) = let rest = select keep l in if keep a then a ∷ rest else rest

-- `FieldList.Get`.
unfoldable pub get_field : FieldList → String → Option Field
get_field [] name = none
get_field (f ∷ l) name = if f.name == name then some f else get_field l name

-- `StringListGet`, as a test.
unfoldable pub has_string : List String → String → Bool
has_string [] name = false
has_string (s ∷ l) name = if s == name then true else has_string l name

-- `if x != nil { some x } else { otherwise }`.
abbrev pub if_some {ℓ κ} : {A : Type ℓ} {B : Type κ} → Option A → (A → B) → B → B
if_some (some a) found otherwise = found a
if_some none found otherwise = otherwise

pub if_some-elim {ℓ κ μ} :
    {A : Type ℓ} {B : Type κ} (P : B → Type μ) (o : Option A) {found : A → B} {otherwise : B}
    → ((a : A) → P (found a))
    → P otherwise
    → P (if_some o found otherwise)
if_some-elim P none f d = d
if_some-elim P (some a) f d = f a

-- The same, with what is known of the value.
pub if_some-cases {ℓ κ μ} :
    {A : Type ℓ} {B : Type κ} (P : B → Type μ) (o : Option A) {found : A → B} {otherwise : B}
    → ((a : A) → o ≡ some a → P (found a))
    → (o ≡ none → P otherwise)
    → P (if_some o found otherwise)
if_some-cases P none f d = d refl
if_some-cases P (some a) f d = f a refl

abbrev pub is_none {ℓ} : {A : Type ℓ} → Option A → Bool
is_none none = true
is_none (some _) = false

-- The directives but the first of that name, which `Get` finds and `Select` drops by its address.
unfoldable pub without_first : String → DirectiveList → DirectiveList
without_first name [] = []
without_first name (d ∷ l) = if d.name == name then l else d ∷ without_first name l

abbrev pub is_shown : ShowType → Bool
is_shown no_description = false
is_shown _ = true

-- The description of an object that is added to.
unfoldable pub add_desc : Description → Description → Description
add_desc old new =
    if not (is_shown old.show_type)
    then new
    else if is_shown new.show_type
    then record old { text = ◌concat◌ old.text (◌concat◌ "\n" new.text) }
    else old

-- `@graphql(alter: "add")` on an object that exists.
unfoldable pub add_to_object : Object → Object → Object
add_to_object existing obj = record existing {
  directives = existing.directives ++ obj.directives;
  fields = existing.fields ++ obj.fields;
  desc = add_desc existing.desc obj.desc;
  interface_names = existing.interface_names ++ obj.interface_names;
  interfaces = existing.interfaces ++ obj.interfaces;
}

-- `@graphql(alter: "drop")` on an object that exists.
unfoldable pub drop_from_object : Object → Object → Object
drop_from_object existing obj = record existing {
  directives =
      select (λ (d : Directive). is_none (get_directive obj.directives d.name)) existing.directives;
  fields = select (λ (f : Field). is_none (get_field obj.fields f.name)) existing.fields;
  interfaces = select (λ i. not (has_string obj.interfaces i)) existing.interfaces;
  interface_names = select (λ i. not (has_string obj.interface_names i)) existing.interface_names;
}

-- The declared type, the error that it is no object, or `absent` if there is none. The message calls
-- any other type an object: `Kind` is called on the pointer that the failed type assertion leaves.
abbrev pub on_object :
    (Message → Result Failure TypeMap)
    → Option TypeDef
    → String
    → Result Failure TypeMap
    → (Object → Result Failure TypeMap)
    → Result Failure TypeMap
on_object fail none name absent change = absent
on_object fail (some (object_def existing)) name absent change = change existing
on_object fail (some _) name absent change = fail (cannot_update name "OBJECT")

module _ (go : GoLibrary) (num : Numbers) where
  -- The text that a directive's argument evaluates to, if it is a text.
  abbrev pub text_of : Result Panic (Value num) → Result Failure (Option String)
  text_of (ok (string_value s)) = ok (some s)
  text_of (ok _) = ok none
  text_of (raised p) = raised (panicked "invalid literal")
  text_of out_of_fuel = out_of_fuel

  unfoldable pub mode_text : Literal → Result Failure (Option String)
  mode_text mode = text_of (evaluate go num [] mode)

  -- The change for `alter`,
  unfoldable pub alter :
      (Message → Result Failure TypeMap) → TypeMap → Object → Option String → Result Failure TypeMap
  alter fail types obj none =
      raised (panicked "@graphql alter value must be one of: \"add\" or \"drop\"")
  alter fail types obj (some mode) =
      if mode == "add"
      then on_object fail (find ◌==◌ types obj.name) obj.name
          (ok (assign ◌==◌ types obj.name (object_def obj)))
          (λ existing. ok (assign ◌==◌ types obj.name (object_def (add_to_object existing obj))))
      else if mode == "drop"
      then on_object fail (find ◌==◌ types obj.name) obj.name (ok types)
          (λ existing. ok (assign ◌==◌ types obj.name (object_def (drop_from_object existing obj))))
      else raised (panicked "@graphql alter value must be one of: \"add\" or \"drop\"")

  -- and for `if`.
  unfoldable pub add_if_missing : TypeMap → Object → Option String → Result Failure TypeMap
  add_if_missing types obj none = raised (panicked "@graphql if value must be: \"missing\"")
  add_if_missing types obj (some mode) =
      if mode == "missing"
      then ok (
          if_some (find ◌==◌ types obj.name) (λ _. types)
            (assign ◌==◌ types obj.name (object_def obj)))
      else raised (panicked "@graphql if value must be: \"missing\"")

  -- The directive, by its arguments.
  unfoldable pub apply_directive :
      (Message → Result Failure TypeMap) → TypeMap → Object → Directive → Result Failure TypeMap
  apply_directive fail types obj d =
      if_some (get_argument d.args "alter")
        (λ mode. Result.bind (mode_text mode) (alter fail types obj))
        (if_some (get_argument d.args "if")
          (λ mode. Result.bind (mode_text mode) (add_if_missing types obj))
          (raised (panicked "@graphql alter or if arguments must be provided")))

  -- The case "type" of `parseSchema`, from the object on.
  unfoldable pub declare_object :
      (Message → Result Failure TypeMap) → TypeMap → Object → Result Failure TypeMap
  declare_object fail types obj =
      if_some (get_directive obj.directives "graphql")
        (λ d.
          apply_directive fail types
            (record obj { directives = without_first "graphql" obj.directives }) d)
        (ok (assign ◌==◌ types obj.name (object_def obj)))

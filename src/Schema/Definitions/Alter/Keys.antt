-- ===== src/Schema/Definitions/Alter/Keys.antt =====
-- About the changes of `@graphql` in schema/schema.go: the names under which the types stand.
use graphql.Prelude.{◌≡◌, refl, ◌∙◌, String, [], ◌==◌, some, none, Option}
use graphql.Prelude.Result.{
  Result, ok, raised, out_of_fuel, Ensures, holds, stopped, Ensures-bind, Ensures-if,
}
use graphql.Lexer.Parser.{Failure, Message, GoLibrary}
use graphql.Schema.Literals.Parse.{Literal}
use graphql.Schema.Literals.Evaluate.{
  Numbers, Panic, Value, null_value, int_value, float_value, string_value, bool_value, list_value,
  map_value,
}
use graphql.Schema.Literals.Total.{evaluate-Ensures}
use graphql.Schema.Values.Parse.{Directive, get_directive, get_argument}
use graphql.Schema.Definitions.{TypeDef, Object, object_def, name_of}
use graphql.Schema.Definitions.Maps.{find, assign, Every, Every-assign, Every-find}
use graphql.Schema.Definitions.Alter.{
  TypeMap, declare_object, apply_directive, alter, add_if_missing, mode_text, add_to_object,
  drop_from_object, on_object, if_some-elim, text_of, without_first,
}

text_of-Ensures :
    (go : GoLibrary) (num : Numbers) (r : Result Panic (Value num))
    → Ensures (λ _. Unit {0}) r
    → Ensures (λ _. Unit {0}) (text_of go num r)
text_of-Ensures go num (ok (string_value s)) h = holds tt
text_of-Ensures go num (ok null_value) h = holds tt
text_of-Ensures go num (ok (int_value _)) h = holds tt
text_of-Ensures go num (ok (float_value _)) h = holds tt
text_of-Ensures go num (ok (bool_value _)) h = holds tt
text_of-Ensures go num (ok (list_value _)) h = holds tt
text_of-Ensures go num (ok (map_value _)) h = holds tt
text_of-Ensures go num (raised p) h = stopped
text_of-Ensures go num out_of_fuel h = elim h [ ]

mode_text-Ensures :
    (go : GoLibrary) (num : Numbers) (l : Literal) → Ensures (λ _. Unit {0}) (mode_text go num l)
unfolding mode_text
mode_text-Ensures go num l = text_of-Ensures go num _ (evaluate-Ensures go num [] l)

-- Every type of the map stands under its own name.
abbrev pub KeysAgree : TypeMap → Type 0
KeysAgree types = Every (λ (k : String) (t : TypeDef). name_of t ≡ k) types

pub assign-KeysAgree :
    (types : TypeMap) (key : String) (t : TypeDef)
    → KeysAgree types
    → name_of t ≡ key
    → KeysAgree (assign ◌==◌ types key t)
assign-KeysAgree types key t h e =
    Every-assign (λ (k : String) (t : TypeDef). name_of t ≡ k) types key t h e

module _ {ℓ} (Post : TypeMap → Type ℓ) (fail : Message → Result Failure TypeMap)
    (fails : (m : Message) → Ensures Post (fail m)) where
  on_object-Ensures :
      (o : Option TypeDef) (name : String) {absent : Result Failure TypeMap}
      {change : Object → Result Failure TypeMap}
      → Ensures Post absent
      → ((existing : Object) → o ≡ some (object_def existing) → Ensures Post (change existing))
      → Ensures Post (on_object fail o name absent change)
  on_object-Ensures none name a c = a
  on_object-Ensures (some (object_def e)) name a c = c e refl
  on_object-Ensures (some (TypeDef.scalar_def t)) name a c = fails _
  on_object-Ensures (some (TypeDef.interface_def t)) name a c = fails _
  on_object-Ensures (some (TypeDef.union_def t)) name a c = fails _
  on_object-Ensures (some (TypeDef.enum_def t)) name a c = fails _
  on_object-Ensures (some (TypeDef.input_def t)) name a c = fails _

  -- The map may stay, the object may come under its name, and so may one that is called like the
  -- object that stands there.
  module _ (go : GoLibrary) (num : Numbers) (types : TypeMap) (obj : Object) (stays : Post types)
      (new : Post (assign ◌==◌ types obj.name (object_def obj)))
      (changed : (e o : Object)
        → find ◌==◌ types obj.name ≡ some (object_def e)
        → o.name ≡ e.name
        → Post (assign ◌==◌ types obj.name (object_def o))) where
    alter-Ensures : (mode : Option String) → Ensures Post (alter go num fail types obj mode)
    unfolding alter add_to_object drop_from_object
    alter-Ensures none = stopped
    alter-Ensures (some mode) =
        Ensures-if (mode == "add")
          (on_object-Ensures (find ◌==◌ types obj.name) obj.name (holds new)
            (λ e found. holds (changed e (add_to_object e obj) found refl)))
          (Ensures-if (mode == "drop")
            (on_object-Ensures (find ◌==◌ types obj.name) obj.name (holds stays)
              (λ e found. holds (changed e (drop_from_object e obj) found refl)))
            stopped)

    add_if_missing-Ensures :
        (mode : Option String) → Ensures Post (add_if_missing go num types obj mode)
    unfolding add_if_missing
    add_if_missing-Ensures none = stopped
    add_if_missing-Ensures (some mode) =
        Ensures-if (mode == "missing")
          (holds (if_some-elim Post (find ◌==◌ types obj.name) (λ _. stays) new)) stopped

    apply_directive-Ensures :
        (d : Directive) → Ensures Post (apply_directive go num fail types obj d)
    unfolding apply_directive
    apply_directive-Ensures d =
        if_some-elim (Ensures Post) (get_argument d.args "alter")
          (λ mode. Ensures-bind (mode_text-Ensures go num mode) λ text _. alter-Ensures text)
          (if_some-elim (Ensures Post) (get_argument d.args "if")
            (λ mode.
              Ensures-bind (mode_text-Ensures go num mode) λ text _. add_if_missing-Ensures text)
            stopped)

  pub declare_object-Ensures :
      (go : GoLibrary) (num : Numbers) (types : TypeMap) (obj : Object)
      → Post types
      → ((o : Object) → o.name ≡ obj.name → Post (assign ◌==◌ types obj.name (object_def o)))
      → ((e o : Object)
          → find ◌==◌ types obj.name ≡ some (object_def e)
          → o.name ≡ e.name
          → Post (assign ◌==◌ types obj.name (object_def o)))
      → Ensures Post (declare_object go num fail types obj)
  unfolding declare_object
  declare_object-Ensures go num types obj stays new changed =
      if_some-elim (Ensures Post) (get_directive obj.directives "graphql")
        (λ d.
          let rest = record obj { directives = without_first "graphql" obj.directives } in
          apply_directive-Ensures go num types rest stays (new rest refl) changed d)
        (holds (new obj refl))

pub declare_object-KeysAgree :
    (fail : Message → Result Failure TypeMap)
    → ((m : Message) → Ensures KeysAgree (fail m))
    → (go : GoLibrary) (num : Numbers) (types : TypeMap) (obj : Object) → KeysAgree types
    → Ensures KeysAgree (declare_object go num fail types obj)
declare_object-KeysAgree fail fails go num types obj h =
    declare_object-Ensures KeysAgree fail fails go num types obj h
      (λ o e. assign-KeysAgree types obj.name (object_def o) h e)
      (λ e o found same. assign-KeysAgree types obj.name (object_def o) h (
        same
        ∙ Every-find (λ (k : String) (t : TypeDef). name_of t ≡ k) types obj.name (object_def e) h
            found))

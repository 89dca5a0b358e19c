-- ===== src/Validation/Values/Valid.antt =====
-- About `validateValueType` of internal/validation/validation.go: from the type to the verdict.
use graphql.Prelude.{String, false, ◌≡◌, refl, ◌↔◌, some, List, Each, ℕ, suc}
use graphql.Qerrors.{Location}
use graphql.Lexer.Token.{TokenKind}
use graphql.Schema.Types.Parse.{SchemaType, list, non_null, type_name, named}
use graphql.Schema.Literals.Parse.{Literal, basic_lit, object_lit, null_lit, Literals, Fields}
use graphql.Schema.Literals.Evaluate.{Numbers}
use graphql.Schema.Values.Parse.{InputValueList}
use graphql.Schema.Query.Parse.{Operation}
use graphql.Schema.Definitions.{InputObject, TypeDef, input_def}
use graphql.Schema.Definitions.Alter.{TypeMap}
use graphql.Validation.Values.{
  valid, is_non_null, look_up_type, check_value, check_entries, check_fields,
}
use graphql.Validation.Values.Spec.{
  IsSingle, basic_single, object_single, IsPlain, basic_plain, list_plain, object_plain, Given,
  Accepts, HasType, variable_fits, null_fits, basic_fits, single_fits, bang_fits, list_fits,
  object_fits, EntriesFit, no_entries, entry, FieldsFit, none_left, one_more,
}
use graphql.Validation.Values.Steps.{valid-and_then, Given-missing, Accepts-basic}
use graphql.Validation.Values.Sound.{Accepted, FieldsAccepted, sound}

module _ (num : Numbers) where
  module _ (types : TypeMap) (ops : List Operation) where
    bang-accepted :
        (v : Literal) (t : SchemaType)
        → IsPlain v
        → is_non_null t ≡ false
        → Accepted num types ops v t
        → Accepted num types ops v (non_null t)
    unfolding check_value
    bang-accepted _ (list t) basic_plain h e = e
    bang-accepted _ (named n) basic_plain h e = e
    bang-accepted _ (type_name n l) basic_plain h e = e
    bang-accepted _ (list t) list_plain h e = e
    bang-accepted _ (named n) list_plain h e = e
    bang-accepted _ (type_name n l) list_plain h e = e
    bang-accepted _ (list t) object_plain h e = e
    bang-accepted _ (named n) object_plain h e = e
    bang-accepted _ (type_name n l) object_plain h e = e
    bang-accepted v (non_null t) p h e = cc

    single-accepted :
        (v : Literal) (t : SchemaType)
        → IsSingle v
        → Accepted num types ops v t
        → Accepted num types ops v (list t)
    unfolding check_value
    single-accepted _ t basic_single e = e
    single-accepted _ t object_single e = e

    null-accepted :
        (loc : Location) (t : SchemaType)
        → is_non_null t ≡ false
        → Accepted num types ops (null_lit loc) t
    unfolding check_value
    null-accepted loc (list t) h = refl
    null-accepted loc (named n) h = refl
    null-accepted loc (type_name n l) h = refl
    null-accepted loc (non_null t) h = cc

    basic-accepted :
        (kind : TokenKind) (text : String) (loc : Location) (t : SchemaType) (d : TypeDef)
        → look_up_type types t ≡ some d
        → Accepts num d kind text
        → Accepted num types ops (basic_lit kind text loc) t
    unfolding check_value look_up_type
    basic-accepted kind text loc (named n) d e a = rw e (Accepts-basic num kind text _ _ d a)
    basic-accepted kind text loc (list t) d e a = cc
    basic-accepted kind text loc (non_null t) d e a = cc
    basic-accepted kind text loc (type_name n l) d e a = cc

    object-accepted :
        (fs : Fields) (loc : Location) (t : SchemaType) (d : InputObject)
        → look_up_type types t ≡ some (input_def d)
        → FieldsAccepted num types ops fs fs d.fields
        → Accepted num types ops (object_lit fs loc) t
    unfolding check_value look_up_type
    object-accepted fs loc (named n) d e a = rw e a
    object-accepted fs loc (list t) d e a = cc
    object-accepted fs loc (non_null t) d e a = cc
    object-accepted fs loc (type_name n l) d e a = cc

    mutual
      unfolding check_value check_entries check_fields

      complete : (v : Literal) (t : SchemaType) → HasType num types v t → Accepted num types ops v t
      complete _ t variable_fits = refl
      complete _ t (null_fits {loc} h) = null-accepted loc t h
      complete _ t (basic_fits {kind} {text} {loc} {d = d} found a) =
          basic-accepted kind text loc t d found a
      complete v _ (single_fits {t = t} s h) = single-accepted v t s (complete v t h)
      complete v _ (bang_fits {t = t} p n h) = bang-accepted v t p n (complete v t h)
      complete _ _ (list_fits {vs} {t = t} h) = entries_complete 0 vs t h
      complete _ t (object_fits {fs} {loc} {d = d} found h given) =
          object-accepted fs loc t d found (fields_complete fs fs d.fields h given)

      entries_complete :
          (n : ℕ) (vs : Literals) (t : SchemaType)
          → EntriesFit num types vs t
          → (check_entries types num ops n vs t).verdict ≡ valid
      entries_complete n _ t no_entries = refl
      entries_complete n _ t (entry {v} {vs} h hs) =
          valid-and_then _ _ _ _ (complete v t h) (entries_complete (suc n) vs t hs)

      fields_complete :
          (all rest : Fields) (decls : InputValueList)
          → FieldsFit num types rest decls
          → Each (Given all) decls
          → FieldsAccepted num types ops all rest decls
      fields_complete all _ decls none_left g = Given-missing all decls g
      fields_complete all _ decls (one_more {name} {loc} {v} {fs} {iv = iv} found h hs) g =
          rw found
            (valid-and_then _ _ _ _ (complete v iv.type h) (fields_complete all fs decls hs g))

    -- `validateValueType` returns true exactly for the literals that the type takes: an enum its
    -- names, a scalar the tokens that `validateBasicLit` accepts for its name, a list type a list of
    -- what its elements take or one such value that is no list, an input object an object whose
    -- fields are declared and take their values, with no required field missing, and a type with "!"
    -- all but null. A variable passes everywhere.
    pub check_value-HasType :
        (v : Literal) (t : SchemaType)
        → ((check_value types num ops v t).verdict ≡ valid) ↔ HasType num types v t
    check_value-HasType v t = (sound num types ops v t, complete v t)

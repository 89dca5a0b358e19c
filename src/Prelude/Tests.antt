-- ===== src/Prelude/Tests.antt =====
-- Boolean tests on the native numbers and on texts, and the conditional.
use Prim.Native.Nat.{ℕ, compare, Ordering}
use Prim.Native.String.{String, compare as compare_text}
use mathlib.Core.Path.{◌≡◌, refl}
use mathlib.Core.Logic.{◌↔◌, ◌⊎◌, inl, inr}
use mathlib.Core.Bool.{Bool, true, false}
use mathlib.Core.Option.{Option, none, some}
use native.Mathlib.Omega.{arith}
use text.Mathlib.Text.{◌==◌ as text_eq}
use text.Mathlib.TextEquality.{eq_iff}

abbrev pub ltb : ℕ → ℕ → Bool
ltb a b = elim (compare a b) [ Ordering.lt ↦ true | _ ↦ false ]

abbrev pub leb : ℕ → ℕ → Bool
leb a b = elim (compare a b) [ Ordering.gt ↦ false | _ ↦ true ]

-- Equality of numbers.
infix 50 ◌=?◌
abbrev pub ◌=?◌ : ℕ → ℕ → Bool
a =? b = elim (compare a b) [ Ordering.eq ↦ true | _ ↦ false ]

-- Equality of texts, Go's `==` on strings.
infix 50 ◌==◌
abbrev pub ◌==◌ : String → String → Bool
◌==◌ = text_eq

-- Go's `<` on strings: byte by byte.
abbrev pub text_lt : String → String → Bool
text_lt s t = elim (compare_text s t) [ Ordering.lt ↦ true | _ ↦ false ]

infix 1 if◌then◌else◌
abbrev pub if◌then◌else◌ {ℓ} : {A : Type ℓ} → Bool → A → A → A
if true then x else y = x
if false then x else y = y

pub ==_iff : (s t : String) → ((s == t) ≡ true) ↔ (s ≡ t)
==_iff = eq_iff

pub =?_iff : (a b : ℕ) → ((a =? b) ≡ true) ↔ (a ≡ b)
=?_iff a b = ground arith

pub Bool-cases : (b : Bool) → (b ≡ true) ⊎ (b ≡ false)
Bool-cases true = inl refl
Bool-cases false = inr refl

pub Option-cases {ℓ} : {A : Type ℓ} (o : Option A) → (o ≡ none) ⊎ ((a : A) × (o ≡ some a))
Option-cases none = inl refl
Option-cases (some a) = inr (a, refl)

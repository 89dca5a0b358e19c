-- ===== src/Lexer/Loop.antt =====
-- The loops `for l.Peek() != close { … }` of the parsers in schema/.
use graphql.Prelude.{
  ℕ, zero, suc, ◌<◌, ◌≡◌, refl, ap, true, false, List, [], ◌∷◌, ◌++◌, append_assoc, Bool-cases, inl,
  inr, arith, length, length-append, if◌then◌else◌,
}
use graphql.Prelude.Result.{ok, out_of_fuel, Ensures, holds, Ensures-bind}
use graphql.Lexer.Token.{TokenKind}
use graphql.Lexer.Parser.{Tokens, Parser, pure, ◌>>=◌, run, at}

module _ {ℓ} {A : Type ℓ} where
  -- Items up to the closing token, which is left. The fuel bounds the number of items.
  unfoldable pub until : ℕ → TokenKind → Parser A → Parser (List A)
  until zero close item ts = out_of_fuel
  until (suc f) close item ts =
      let more = (run ts do a ← item; items ← until f close item; pure (a ∷ items)) in
      if at close ts then ok ([], ts) else more

-- The items of a loop one after another, each spelled by `Spells`.
pub data SpellsEach {ℓ κ} {A : Type ℓ} (Spells : A → Tokens → Type κ)
    : List A → Tokens → Type (ℓ ⊔ κ) where
  no_items : SpellsEach Spells [] []
  item :
      {a : A} {items : List A} {ps qs rs : Tokens}
      → Spells a ps
      → SpellsEach Spells items qs
      → rs ≡ ps ++ qs
      → SpellsEach Spells (a ∷ items) rs

module _ {ℓ} {A : Type ℓ} (close : TokenKind) (item : Parser A) where
  -- One round of the loop, and its end.
  pub until-cons :
      (f : ℕ) (a : A) (items : List A) (ts mid rest : Tokens)
      → at close ts ≡ false
      → item ts ≡ ok (a, mid)
      → until f close item mid ≡ ok (items, rest)
      → until (suc f) close item ts ≡ ok (a ∷ items, rest)
  unfolding until
  until-cons f a items ts mid rest e e₁ e₂ = rw (e, e₁, e₂)

  pub until-nil :
      (f : ℕ) (ts : Tokens) → at close ts ≡ true → until (suc f) close item ts ≡ ok ([], ts)
  unfolding until
  until-nil f ts e = rw e

-- For items that read at least one token: `until` reads items one after another, in order, and
-- stops at the closing token.
module _ {ℓ κ μ} {A : Type ℓ} (Spells : A → Tokens → Type κ) (SpellsAll : List A → Tokens → Type μ)
    (none : SpellsAll [] [])
    (more : (a : A) (items : List A) (ps qs : Tokens)
      → Spells a ps
      → SpellsAll items qs
      → SpellsAll (a ∷ items) (ps ++ qs))
    (close : TokenKind) (item : Parser A) where
  pub until-Ensures :
      (f n : ℕ)
      → ((ts : Tokens)
          → length ts < n
          → Ensures
              (λ r. (ps : Tokens) × Spells r.0 ps × (0 < length ps) × (ts ≡ ps ++ r.1))
              (item ts))
      → (ts : Tokens) → length ts < n
      → length ts < f
      → Ensures
          (λ r. (ps : Tokens) × SpellsAll r.0 ps × (ts ≡ ps ++ r.1) × (at close r.1 ≡ true))
          (until f close item ts)
  unfolding until
  until-Ensures zero n h ts b c = absurd (omega arith)
  until-Ensures (suc f) n h ts b c = elim (Bool-cases (at close ts)) [
    | inl e ↦ rw e (holds ([], none, refl, e))
    | inr e ↦ rw e (
        Ensures-bind (h ts b) λ (a, ts₁) (ps, sp, pos, e₁).
          Ensures-bind
            (until-Ensures f n h ts₁ (omega (arith, ap length e₁, length-append ps ts₁))
              (omega (arith, ap length e₁, length-append ps ts₁)))
            λ (items, ts₂) (qs, sq, e₂, end).
              holds (ps ++ qs, more a items ps qs sp sq, simp (e₁, e₂, append_assoc), end))
  ]

-- The same for items that stand on their own.
pub until-SpellsEach {ℓ κ} :
    {A : Type ℓ} (Spells : A → Tokens → Type κ) (close : TokenKind) (p : Parser A) (f n : ℕ)
    → ((ts : Tokens)
        → length ts < n
        → Ensures (λ r. (ps : Tokens) × Spells r.0 ps × (0 < length ps) × (ts ≡ ps ++ r.1)) (p ts))
    → (ts : Tokens) → length ts < n
    → length ts < f
    → Ensures
        (λ r. (ps : Tokens) × SpellsEach Spells r.0 ps × (ts ≡ ps ++ r.1) × (at close r.1 ≡ true))
        (until f close p ts)
until-SpellsEach Spells close p f n =
    until-Ensures Spells (SpellsEach Spells) no_items (λ a items ps qs s t. item s t refl) close p f
      n

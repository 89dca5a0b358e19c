-- ===== src/Qerrors/Order.antt =====
-- `Before` orders the positions of a document.
use graphql.Prelude.{◌≡◌, ◌⊎◌, inl, inr, true, false, arith, sym}
use graphql.Qerrors.{Location, before}

-- Two positions are in one of three orders, which exclude each other.
pub data Ordered (a b : Location) : Type 0 where
  earlier : before a b ≡ true → before b a ≡ false → ¬ (a ≡ b) → Ordered a b
  same_place : a ≡ b → before a b ≡ false → before b a ≡ false → Ordered a b
  later : before b a ≡ true → before a b ≡ false → ¬ (a ≡ b) → Ordered a b

before_asym : (a b : Location) → before a b ≡ true → before b a ≡ false
unfolding before
before_asym a b h = ground arith

before_irrefl : (a b : Location) → a ≡ b → before a b ≡ false
unfolding before
before_irrefl a b e = ground arith

before_cases : (a b : Location) → (before a b ≡ true) ⊎ ((a ≡ b) ⊎ (before b a ≡ true))
unfolding before
before_cases a b = ground arith

-- `Before` holds of two positions in one order at most, and in neither order exactly if they are
-- the same position.
pub before-Ordered : (a b : Location) → Ordered a b
before-Ordered a b = elim (before_cases a b) [
  | inl h ↦ earlier h (before_asym a b h) (λ e. absurd (let no = before_irrefl a b e in cc))
  | inr (inl e) ↦ same_place e (before_irrefl a b e) (before_irrefl b a (sym e))
  | inr (inr h) ↦
      later h (before_asym b a h) (λ e. absurd (let no = before_irrefl b a (sym e) in cc))
]

-- If one position is before a second, and this is before a third, the first is before the third.
pub before_trans : (a b c : Location) → before a b ≡ true → before b c ≡ true → before a c ≡ true
unfolding before
before_trans a b c h k = ground arith

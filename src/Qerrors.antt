-- ===== src/Qerrors.antt =====
-- qerrors/qerrors.go: positions in a document.
pub mod Order
use graphql.Prelude.{ℕ, Bool, ◌&&◌, ◌||◌, ltb, ◌=?◌}

-- `Location`.
pub record Location : Type 0 where
  pub line : ℕ
  pub column : ℕ

-- `Location.Before`.
unfoldable pub before : Location → Location → Bool
before a b = ltb a.line b.line || (a.line =? b.line && ltb a.column b.column)

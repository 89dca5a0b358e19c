-- ===== src/Validation/Suggestion.antt =====
-- internal/validation/suggestion.go: `levenshteinDistance`, over the characters of ASCII texts, for
-- which Go's `range` counts as the array does. `column` is passed from one round to the next.
use graphql.Prelude.{ℕ, suc, ◌+◌, Bool, List, [], ◌∷◌, length, ltb, ◌=?◌, if◌then◌else◌}
pub mod Distance
pub mod Metric

-- `min` and `max`.
unfoldable pub min : ℕ → ℕ → ℕ
min a b = if ltb a b then a else b

unfoldable pub max : ℕ → ℕ → ℕ
max a b = if ltb b a then a else b

-- The first loop: `column[y+1] = y + 1`.
unfoldable pub count_from : ℕ → List ℕ → List ℕ
count_from y [] = []
count_from y (_ ∷ s) = (y + 1) ∷ count_from (y + 1) s

-- The inner loop, from the place where `lastdiag` and `column[y]` are `diag` and `left`, over the
-- characters of `s1` and the entries of `column` that are left.
unfoldable pub update : ℕ → ℕ → ℕ → List ℕ → List ℕ → List ℕ
update rx diag left (ry ∷ s) (old ∷ column) =
    let lastdiag = if rx =? ry then diag else diag + 1 in
    let entry = min (old + 1) (min (left + 1) lastdiag) in entry ∷ update rx old entry s column
update rx diag left _ _ = []

-- One round of the outer loop, which finds `column[0]` equal to `x`.
unfoldable pub round : ℕ → ℕ → List ℕ → List ℕ → List ℕ
round x rx s1 [] = []
round x rx s1 (_ ∷ column) = (x + 1) ∷ update rx x (x + 1) s1 column

unfoldable pub rounds : ℕ → List ℕ → List ℕ → List ℕ → List ℕ
rounds x [] s1 column = column
rounds x (rx ∷ s2) s1 column = rounds (x + 1) s2 s1 (round x rx s1 column)

-- The last entry.
unfoldable pub last_or : ℕ → List ℕ → ℕ
last_or d [] = d
last_or d (c ∷ column) = last_or c column

-- `levenshteinDistance`.
unfoldable pub levenshtein_distance : List ℕ → List ℕ → ℕ
levenshtein_distance s1 s2 = last_or 0 (rounds 0 s2 s1 (0 ∷ count_from 0 s1))

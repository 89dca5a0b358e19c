-- ===== src/Validation/Suggestion/Distance.antt =====
-- `levenshteinDistance` is the least number of edits that turn one text into the other.
use graphql.Prelude.{ℕ, suc, ◌+◌, List, [], ◌∷◌, length, ◌=?◌, if◌then◌else◌}
use graphql.Validation.Suggestion.{min}

-- Edits of one character each, from the front: the number of insertions, deletions and
-- substitutions that turn the first text into the second.
pub data Edits : List ℕ → List ℕ → ℕ → Type 0 where
  done : Edits [] [] 0
  keep : {s t : List ℕ} {n : ℕ} (a : ℕ) → Edits s t n → Edits (a ∷ s) (a ∷ t) n
  substitute : {s t : List ℕ} {n : ℕ} (a b : ℕ) → Edits s t n → Edits (a ∷ s) (b ∷ t) (suc n)
  delete : {s t : List ℕ} {n : ℕ} (a : ℕ) → Edits s t n → Edits (a ∷ s) t (suc n)
  insert : {s t : List ℕ} {n : ℕ} (b : ℕ) → Edits s t n → Edits s (b ∷ t) (suc n)

-- The recursion behind the table, over prefixes read backwards.
dist : List ℕ → List ℕ → ℕ
dist [] t = length t
dist (a ∷ s) [] = suc (length s)
dist (a ∷ s) (b ∷ t) =
    min (dist (a ∷ s) t + 1) (min (dist s (b ∷ t) + 1) (if b =? a then dist s t else dist s t + 1))

-- The entries of the table for the prefixes of `q` backwards and then `ys`, but the first.
entries : List ℕ → List ℕ → List ℕ → List ℕ
entries q [] p = []
entries q (y ∷ ys) p = dist (y ∷ q) p ∷ entries (y ∷ q) ys p

rev_onto : List ℕ → List ℕ → List ℕ
rev_onto [] p = p
rev_onto (x ∷ s) p = rev_onto s (x ∷ p)

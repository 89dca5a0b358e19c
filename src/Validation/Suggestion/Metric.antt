-- ===== src/Validation/Suggestion/Metric.antt =====
-- About `levenshteinDistance` of internal/validation/suggestion.go as a distance.
use graphql.Prelude.{ℕ, ◌≤◌, List}
use graphql.Validation.Suggestion.Distance.{Edits}

-- Edits one after the other.
AtMost : List ℕ → List ℕ → ℕ → Type 0
AtMost s u bound = (k : ℕ) × Edits s u k × (k ≤ bound)

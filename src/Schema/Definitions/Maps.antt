-- ===== src/Schema/Definitions/Maps.antt =====
-- Go's maps, as association lists: the look-up, and the assignment of a key.
use graphql.Prelude.{
  String, Bool, ◌≡◌, List, [], ◌∷◌, Option, none, some, if◌then◌else◌, ◌==◌, ==_iff, Bool-cases,
  inl, inr, subst, Each,
}

module _ {ℓ κ} {K : Type κ} {V : Type ℓ} (same : K → K → Bool) where
  -- `m[key]`.
  unfoldable pub find : List (K × V) → K → Option V
  find [] key = none
  find ((k, v) ∷ m) key = if same k key then some v else find m key

  -- `m[key] = value`.
  unfoldable pub assign : List (K × V) → K → V → List (K × V)
  assign [] key value = (key, value) ∷ []
  assign ((k, v) ∷ m) key value =
      let rest = assign m key value in if same k key then (k, value) ∷ m else (k, v) ∷ rest

-- Every entry of a map has a property, with its key.
abbrev pub Every {ℓ κ μ} : {K : Type κ} {V : Type ℓ} → (K → V → Type μ) → List (K × V) → Type μ
Every {K = K} {V} P m = Each (λ (e : K × V). P e.0 e.1) m

module _ {ℓ μ} {V : Type ℓ} (P : String → V → Type μ) where
  pub Every-assign :
      (m : List (String × V)) (key : String) (value : V)
      → Every P m
      → P key value
      → Every P (assign ◌==◌ m key value)
  unfolding assign
  Every-assign [] key value h p = (p, tt)
  Every-assign ((k, v) ∷ m) key value h p = elim (Bool-cases (k == key)) [
    | inl e ↦ rw e (rw ((==_iff k key).0 e) p, h.1)
    | inr e ↦ rw e (h.0, Every-assign m key value h.1 p)
  ]

  pub Every-find :
      (m : List (String × V)) (key : String) (value : V)
      → Every P m
      → find ◌==◌ m key ≡ some value
      → P key value
  unfolding find
  Every-find [] key value h e = cc
  Every-find ((k, v) ∷ m) key value h e = elim (Bool-cases (k == key)) [
    | inl s ↦
        let same : v ≡ value = cc in
        subst (λ (w : V). P key w) same (subst (λ (j : String). P j v) ((==_iff k key).0 s) h.0)
    | inr s ↦ Every-find m key value h.1 (cc)
  ]

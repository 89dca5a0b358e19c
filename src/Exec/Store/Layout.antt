-- ===== src/Exec/Store/Layout.antt =====
-- How a linked map lies in its store.
use graphql.Prelude.{
  ℕ, suc, ◌+◌, ◌≡◌, refl, ap, ◌∙◌, List, [], ◌∷◌, ◌++◌, Option, none, some, length, arith,
}
use graphql.Exec.Store.{Store, LinkedMap, modify, set_next}

module _ {K : Type 0} where
  abbrev pub first_address : List (K × ℕ) → Option ℕ
  first_address [] = none
  first_address ((_, a) ∷ _) = some a

  abbrev pub last_address : List (K × ℕ) → Option ℕ
  last_address [] = none
  last_address ((_, a) ∷ []) = some a
  last_address (_ ∷ x ∷ l) = last_address (x ∷ l)

  pub last_address-append :
      (l : List (K × ℕ)) (k : K) (a : ℕ) → last_address (l ++ (k, a) ∷ []) ≡ some a
  last_address-append [] k a = refl
  last_address-append (_ ∷ []) k a = refl
  last_address-append (_ ∷ x ∷ l) k a = last_address-append (x ∷ l) k a

module _ {K V : Type 0} where
  -- The entries as they lie in the store from address `i` on.
  abbrev pub number : ℕ → List (K × V) → List (K × ℕ)
  number i [] = []
  number i ((k, v) ∷ l) = (k, i) ∷ number (suc i) l

  abbrev pub chain : ℕ → List (K × V) → Store V
  chain i [] = []
  chain i ((k, v) ∷ l) =
      record { value = v; next = first_address (number (suc i) l) } ∷ chain (suc i) l

  -- The map that holds these keys and values in this order.
  abbrev pub represent : List (K × V) → LinkedMap K V
  represent l = record {
    values_by_key = number 0 l;
    first = first_address (number 0 l);
    last = last_address (number 0 l);
    store = chain 0 l;
  }

  pub length-chain : (i : ℕ) (l : List (K × V)) → length (chain i l) ≡ length l
  length-chain i [] = refl
  length-chain i (_ ∷ l) = ap suc (length-chain (suc i) l)

  pub number-append :
      (i : ℕ) (l : List (K × V)) (k : K) (v : V)
      → number i (l ++ (k, v) ∷ []) ≡ number i l ++ (k, i + length l) ∷ []
  number-append i [] k v = ap (λ a. (k, a) ∷ []) (omega arith)
  number-append i ((k', w) ∷ l) k v =
      ap (λ r. (k', i) ∷ r)
        (number-append (suc i) l k v ∙ ap (λ a. number (suc i) l ++ (k, a) ∷ []) (omega arith))

  pub last_address-number :
      (i : ℕ) (x : K × V) (l : List (K × V)) → last_address (number i (x ∷ l)) ≡ some (i + length l)
  last_address-number i x [] = ap some (omega arith)
  last_address-number i x (y ∷ l) = last_address-number (suc i) y l ∙ ap some (omega arith)

  -- The store behind `Set` of a new key.
  pub set_next-chain :
      (i n : ℕ) (x : K × V) (l : List (K × V)) (k : K) (v : V)
      → n ≡ suc (i + length l)
      → set_next (some n) (chain i (x ∷ l) ++ record { value = v; next = none } ∷ []) (length l)
        ≡ chain i (x ∷ l ++ (k, v) ∷ [])
  unfolding modify
  set_next-chain i n x [] k v e = let here : n ≡ suc i = omega (arith, e) in rw here refl
  set_next-chain i n x (y ∷ l) k v e =
      ap (λ s. record { value = x.1; next = some (suc i) } ∷ s)
        (set_next-chain (suc i) n y l k v (omega (arith, e)))

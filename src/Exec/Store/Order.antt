-- ===== src/Exec/Store/Order.antt =====
-- A linked map holds a list of keys and values in the order in which the keys came.
use mathlib.Core.Option
use graphql.Prelude.{
  ℕ, suc, ◌+◌, ◌≡◌, refl, sym, ap, ◌∙◌, Bool, List, [], ◌∷◌, ◌++◌, map, Option, none, some, length,
  length-append, append_assoc, if◌then◌else◌, Bool-cases, inl, inr, arith,
}
use graphql.Exec.Store.{
  Entry, Store, LinkedMap, read, modify, set_value, link_last, follow, look_up, get, replace, add,
  set, create_linked_map,
}
use graphql.Exec.Store.Layout.{
  first_address, last_address, number, chain, represent, length-chain, number-append,
  last_address-append, last_address-number, set_next-chain,
}

module _ {K V : Type 0} (same : K → K → Bool) where
  -- The value of a key changes in its place, and a new key comes last.
  unfoldable pub insert : List (K × V) → K → V → List (K × V)
  insert [] key value = (key, value) ∷ []
  insert ((k, w) ∷ l) key value =
      let rest = insert l key value in if same k key then (k, value) ∷ l else (k, w) ∷ rest

  -- What a search for the key finds.
  data Search (l : List (K × V)) (key : K) : Type 0 where
    absent :
        look_up same l key ≡ none
        → ((i : ℕ) → look_up same (number i l) key ≡ none)
        → ((v : V) → insert l key v ≡ l ++ (key, v) ∷ [])
        → Search l key
    present :
        (p : ℕ)
        → ((i : ℕ) → look_up same (number i l) key ≡ some (i + p))
        → ((i : ℕ)
            → Option.map (λ (e : Entry V). e.value) (read (chain i l) p) ≡ look_up same l key)
        → ((i : ℕ) (v : V) → set_value v (chain i l) p ≡ chain i (insert l key v))
        → ((i : ℕ) (v : V) → number i (insert l key v) ≡ number i l)
        → Search l key

  search : (l : List (K × V)) (key : K) → Search l key
  unfolding look_up read modify insert
  search [] key = absent refl (λ i. refl) (λ v. refl)
  search ((k, w) ∷ l) key = elim (Bool-cases (same k key)) [
    | inl e ↦
        present 0 (λ i. rw e (ap some (omega arith))) (λ i. rw e refl) (λ i v. rw e refl)
          (λ i v. rw e refl)
    | inr e ↦ elim (search l key) [
      | absent none_in none_at last ↦
          absent (rw e none_in) (λ i. rw e (none_at (suc i)))
            (λ v. rw e (ap (λ r. (k, w) ∷ r) (last v)))
      | present p at values stores keys ↦
          present (suc p) (λ i. rw e (at (suc i) ∙ ap some (omega arith)))
            (λ i. rw e (values (suc i))) (λ i v. rw (e, keys (suc i) v, stores (suc i) v) refl)
            (λ i v. rw e (ap (λ r. (k, i) ∷ r) (keys (suc i) v)))
    ]
  ]

  same_parts :
      {keys keys' : List (K × ℕ)} {last last' : Option ℕ} {store store' : Store V}
      → keys ≡ keys'
      → last ≡ last'
      → store ≡ store'
      → ◌≡◌ {A = LinkedMap K V}
          (record { values_by_key = keys; first = some 0; last = last; store = store })
          (record { values_by_key = keys'; first = some 0; last = last'; store = store' })
  same_parts a b c = rw (a, b, c) refl

  set-absent :
      (l : List (K × V)) (key : K) (value : V)
      → look_up same (number 0 l) key ≡ none
      → set same (represent l) key value ≡ (none, add same (represent l) key value)
  unfolding set
  set-absent l key value e = rw (set, e) refl

  set-present :
      (l : List (K × V)) (key : K) (value : V) (p : ℕ)
      → look_up same (number 0 l) key ≡ some p
      → set same (represent l) key value ≡ replace same (represent l) p value
  unfolding set
  set-present l key value p e = rw (set, e) refl

  get-absent :
      (l : List (K × V)) (key : K)
      → look_up same (number 0 l) key ≡ none
      → get same (represent l) key ≡ none
  unfolding get
  get-absent l key e = rw (get, e) refl

  get-present :
      (l : List (K × V)) (key : K) (p : ℕ)
      → look_up same (number 0 l) key ≡ some p
      → get same (represent l) key ≡ Option.map (λ (e : Entry V). e.value) (read (chain 0 l) p)
  unfolding get
  get-present l key p e = rw (get, e) refl

  add-represent :
      (l : List (K × V)) (key : K) (value : V)
      → add same (represent l) key value ≡ represent (l ++ (key, value) ∷ [])
  add-represent [] key value = refl
  add-represent (x ∷ l) key value =
      let n = length (chain 0 (x ∷ l)) in
      let entry : Store V = record { value = value; next = none } ∷ [] in
      let keys =
        ap (λ a. number 0 (x ∷ l) ++ (key, a) ∷ []) (length-chain 0 (x ∷ l) ∙ omega arith)
        ∙ sym (number-append 0 (x ∷ l) key value) in
      same_parts keys (sym (last_address-append (number 0 (x ∷ l)) key n) ∙ ap last_address keys) (
        ap (λ p. link_last p n (chain 0 (x ∷ l) ++ entry))
          (last_address-number 0 x l ∙ ap some (omega arith))
        ∙ set_next-chain 0 n x l key value (omega (arith, length-chain 1 l)))

  -- `Get` on the map for a list looks the key up in the list.
  pub get-represent : (l : List (K × V)) (key : K) → get same (represent l) key ≡ look_up same l key
  get-represent l key = elim (search l key) [
    | absent none_in none_at last ↦ get-absent l key (none_at 0) ∙ sym none_in
    | present p at values stores keys ↦
        get-present l key p (at 0 ∙ ap some (omega arith)) ∙ values 0
  ]

  -- `Set` returns the value that the key had, and the map for the list in which the value of the key
  -- is changed in its place, or the key comes last if it is new.
  pub set-represent :
      (l : List (K × V)) (key : K) (value : V)
      → set same (represent l) key value ≡ (look_up same l key, represent (insert l key value))
  set-represent l key value = elim (search l key) [
    | absent none_in none_at last ↦
        rw (set-absent l key value (none_at 0), none_in, last value, add-represent l key value) refl
    | present p at values stores keys ↦
        rw
          (
            set-present l key value p (at 0 ∙ ap some (omega arith)),
            values 0,
            stores 0 value,
            keys 0 value,
          )
          refl
  ]

module _ {V : Type 0} where
  read-append :
      (pre s : Store V) (e : Entry V) (n : ℕ) → n ≡ length pre → read (pre ++ e ∷ s) n ≡ some e
  unfolding read
  read-append [] s e n h = rw h refl
  read-append (x ∷ pre) s e n h = rw h (read-append pre s e (length pre) refl)

module _ {K V : Type 0} where
  follow-chain :
      (pre : Store V) (i : ℕ) (l : List (K × V))
      → i ≡ length pre
      → follow (suc (length l)) (pre ++ chain i l) (first_address (number i l))
        ≡ some (map (λ (x : K × V). x.1) l)
  unfolding follow
  follow-chain pre i [] h = refl
  follow-chain pre i (x ∷ l) h =
      let e : Entry V = record { value = x.1; next = first_address (number (suc i) l) } in
      let more : follow (suc (length l)) (pre ++ chain i (x ∷ l)) (first_address (number (suc i) l))
          ≡ some (map (λ (x : K × V). x.1) l) =
        rw (sym (append_assoc pre (e ∷ []) (chain (suc i) l)))
          (follow-chain (pre ++ e ∷ []) (suc i) l (omega (arith, h, length-append pre (e ∷ [])))) in
      rw (follow, read-append pre (chain (suc i) l) e i h) (rw more refl)

  follow-represent :
      (l : List (K × V))
      → follow (suc (length l)) (represent l).store (represent l).first
        ≡ some (map (λ (x : K × V). x.1) l)
  follow-represent l = follow-chain [] 0 l refl

module _ {K V : Type 0} (same : K → K → Bool) where
  -- Calls of `Set`, one after another, and what they make of a list.
  unfoldable pub set_all : LinkedMap K V → List (K × V) → LinkedMap K V
  set_all m [] = m
  set_all m ((key, value) ∷ calls) = set_all (set same m key value).1 calls

  unfoldable pub insert_all : List (K × V) → List (K × V) → List (K × V)
  insert_all l [] = l
  insert_all l ((key, value) ∷ calls) = insert_all (insert same l key value) calls

  set_all-represent :
      (l calls : List (K × V)) → set_all (represent l) calls ≡ represent (insert_all l calls)
  unfolding set_all insert_all
  set_all-represent l [] = refl
  set_all-represent l ((key, value) ∷ calls) =
      ap (λ r. set_all r.1 calls) (set-represent same l key value)
      ∙ set_all-represent (insert same l key value) calls

  -- After any calls of `Set` on a new map, `First` and the pointers `Next` lead through its values in
  -- the order in which their keys first came, each with the value of the last call for its key, and
  -- then end.
  pub follow-set_all :
      (calls : List (K × V))
      → let m = set_all (create_linked_map K V) calls in
        follow (suc (length (insert_all [] calls))) m.store m.first
        ≡ some (map (λ (x : K × V). x.1) (insert_all [] calls))
  follow-set_all calls =
      ap (λ (m : LinkedMap K V). follow (suc (length (insert_all [] calls))) m.store m.first)
        (set_all-represent [] calls)
      ∙ follow-represent (insert_all [] calls)

-- ===== src/Exec/Store.antt =====
-- internal/linkedmap/linkedmap.go: the linked map, with its entries in a store.
pub mod Layout
pub mod Order
use mathlib.Core.Option
use graphql.Prelude.{
  ℕ, zero, suc, Bool, true, false, List, [], ◌∷◌, ◌++◌, Option, none, some, length, if◌then◌else◌,
}

module _ (V : Type 0) where
  -- `LinkedMapEntry`: a pointer is an address in the store, and nil is `none`.
  pub record Entry : Type 0 where
    pub value : V
    pub next : Option ℕ

-- The entries that a map has allocated; the address of an entry is its place.
abbrev pub Store : Type 0 → Type 0
Store V = List (Entry V)

module _ {V : Type 0} where
  unfoldable pub read : Store V → ℕ → Option (Entry V)
  read [] a = none
  read (e ∷ s) zero = some e
  read (e ∷ s) (suc a) = read s a

  unfoldable pub modify : (Entry V → Entry V) → Store V → ℕ → Store V
  modify f [] a = []
  modify f (e ∷ s) zero = f e ∷ s
  modify f (e ∷ s) (suc a) = e ∷ modify f s a

  -- An assignment to the field `Value`, and one to the field `Next`.
  abbrev pub set_value : V → Store V → ℕ → Store V
  set_value v = modify λ e. record e { value = v }

  abbrev pub set_next : Option ℕ → Store V → ℕ → Store V
  set_next p = modify λ e. record e { next = p }

-- `LinkedMap`. `values_by_key` is the Go map, as the pairs of a key and an address.
pub record LinkedMap (K V : Type 0) : Type 0 where
  pub values_by_key : List (K × ℕ)
  pub first : Option ℕ
  pub last : Option ℕ
  pub store : Store V

-- `CreateLinkedMap`.
abbrev pub create_linked_map : (K V : Type 0) → LinkedMap K V
create_linked_map K V = record { values_by_key = []; first = none; last = none; store = [] }

-- `this.Last.Next = entry`. `Set` does this only where `First` is set, and `Last` is then set too.
abbrev pub link_last : {V : Type 0} → Option ℕ → ℕ → Store V → Store V
link_last none a s = s
link_last (some l) a s = set_next (some a) s l

-- The values along the pointers `Next`, as the loops over a linked map read them.
unfoldable pub follow : {V : Type 0} → ℕ → Store V → Option ℕ → Option (List V)
follow zero s p = none
follow (suc f) s none = some []
follow (suc f) s (some a) = elim (read s a) [
  | none ↦ none
  | some e ↦ Option.map (λ vs. e.value ∷ vs) (follow f s e.next)
]

-- The keys of a Go map, compared by its `==`.
module _ {K A : Type 0} (same : K → K → Bool) where
  unfoldable pub look_up : List (K × A) → K → Option A
  look_up [] key = none
  look_up ((k, a) ∷ l) key = if same k key then some a else look_up l key

module _ {K V : Type 0} (same : K → K → Bool) where
  -- `LinkedMap.Get`.
  unfoldable pub get : LinkedMap K V → K → Option V
  get m key = elim (look_up same m.values_by_key key) [
    | none ↦ none
    | some a ↦ Option.map (λ (e : Entry V). e.value) (read m.store a)
  ]

  -- `LinkedMap.Set` of a key that the map has: the value that it had, and the map.
  abbrev pub replace : LinkedMap K V → ℕ → V → Option V × LinkedMap K V
  replace m a value = (
    Option.map (λ (e : Entry V). e.value) (read m.store a),
    record m { store = set_value value m.store a },
  )

  -- `LinkedMap.Set` of a new key.
  abbrev pub add : LinkedMap K V → K → V → LinkedMap K V
  add m key value =
      let a = length m.store in
      let entry = record { value = value; next = none } ∷ [] in
      let keys = m.values_by_key ++ (key, a) ∷ [] in
      elim m.first [
        | none ↦ record {
          values_by_key = keys;
          first = some a;
          last = some a;
          store = m.store ++ entry;
        }
        | some _ ↦ record {
          values_by_key = keys;
          first = m.first;
          last = some a;
          store = link_last m.last a (m.store ++ entry);
        }
      ]

  -- `LinkedMap.Set`.
  unfoldable pub set : LinkedMap K V → K → V → Option V × LinkedMap K V
  set m key value = elim (look_up same m.values_by_key key) [
    | none ↦ (none, add m key value)
    | some a ↦ replace m a value
  ]

-- ===== src/Cache/Dict.antt =====
-- The standard library's `HashMap`, as an association list that holds a key at most once.
use btc_rpc_proxy.Prelude.{
  ℕ, ◌+◌, ◌≡◌, refl, ◌≢◌, Option, none, some, List, [], ◌∷◌, arith, ite, if_pos, if_neg, length,
}

-- What the cache stores: the bytes of a serialized block.
abbrev pub Bytes : Type 0
Bytes = List ℕ

abbrev pub HashMap : Type 0 → Type 0
HashMap K = List (K × Bytes)

-- The bytes of every block that is held.
unfoldable pub total : {K : Type 0} → HashMap K → ℕ
total [] = 0
total ((j, b) ∷ m) = length b + total m

module _ {K : Type 0} (dec : Discrete K) where
  unfoldable pub lookup : K → HashMap K → Option Bytes
  lookup k [] = none
  lookup k ((j, b) ∷ m) = ite (dec j k) (some b) (lookup k m)

  unfoldable pub remove : K → HashMap K → HashMap K
  remove k [] = []
  remove k ((j, b) ∷ m) = ite (dec j k) (remove k m) ((j, b) ∷ remove k m)

  unfoldable pub insert : K → Bytes → HashMap K → HashMap K
  insert k b m = (k, b) ∷ remove k m

  -- No key stands twice.
  abbrev pub Distinct : HashMap K → Type 0
  Distinct [] = Unit
  Distinct ((k, b) ∷ m) = (lookup k m ≡ none) × Distinct m

  pub lookup-remove_self : (k : K) (m : HashMap K) → lookup k (remove k m) ≡ none
  unfolding lookup remove
  lookup-remove_self k [] = refl
  lookup-remove_self k ((j, b) ∷ m) = ground (arith, lookup-remove_self k m)

  pub lookup-remove_ne : (k q : K) (m : HashMap K) → k ≢ q → lookup q (remove k m) ≡ lookup q m
  unfolding lookup remove
  lookup-remove_ne k q [] h = refl
  lookup-remove_ne k q ((j, b) ∷ m) h = ground (arith, lookup-remove_ne k q m)

  pub remove_absent : (k : K) (m : HashMap K) → lookup k m ≡ none → remove k m ≡ m
  unfolding lookup remove
  remove_absent k [] h = refl
  remove_absent k ((j, b) ∷ m) h = ground (arith, remove_absent k m)

  pub remove_comm : (k q : K) (m : HashMap K) → remove k (remove q m) ≡ remove q (remove k m)
  unfolding remove
  remove_comm k q [] = refl
  remove_comm k q ((j, b) ∷ m) = ground (arith, remove_comm k q m)

  pub lookup-remove-none :
      (k q : K) (m : HashMap K) → lookup q m ≡ none → lookup q (remove k m) ≡ none
  unfolding lookup remove
  lookup-remove-none k q [] h = refl
  lookup-remove-none k q ((j, b) ∷ m) h = ground (arith, lookup-remove-none k q m)

  pub remove-Distinct : (k : K) (m : HashMap K) → Distinct m → Distinct (remove k m)
  unfolding remove
  remove-Distinct k [] d = d
  remove-Distinct k ((j, b) ∷ m) d = elim (dec j k) [
    | yes p ↦ rw (if_pos _ p) (remove-Distinct k m d.1)
    | no p ↦ rw (if_neg _ p) (lookup-remove-none k j m d.0, remove-Distinct k m d.1)
  ]

  pub total-remove :
      (k : K) (b : Bytes) (m : HashMap K)
      → Distinct m
      → lookup k m ≡ some b
      → total (remove k m) + length b ≡ total m
  unfolding total remove lookup
  total-remove k b [] d h = absurd (ground arith)
  total-remove k b ((j, c) ∷ m) d h = elim (dec j k) [
    | yes p ↦ ground (arith, remove_absent k m (rw (← p) d.0))
    | no p ↦ ground (arith, total-remove k b m d.1)
  ]

  pub length-remove :
      (k : K) (b : Bytes) (m : HashMap K)
      → Distinct m
      → lookup k m ≡ some b
      → length (remove k m) + 1 ≡ length m
  unfolding remove lookup
  length-remove k b [] d h = absurd (ground arith)
  length-remove k b ((j, c) ∷ m) d h = elim (dec j k) [
    | yes p ↦ ground (arith, remove_absent k m (rw (← p) d.0))
    | no p ↦ ground (arith, length-remove k b m d.1)
  ]

  pub lookup-insert_self : (k : K) (b : Bytes) (m : HashMap K) → lookup k (insert k b m) ≡ some b
  unfolding insert lookup
  lookup-insert_self k b m = ground arith

  pub insert_absent :
      (k : K) (b : Bytes) (m : HashMap K) → lookup k m ≡ none → insert k b m ≡ (k, b) ∷ m
  unfolding insert
  insert_absent k b m h = rw (remove_absent k m h)

  pub remove-insert_absent :
      (k : K) (b : Bytes) (m : HashMap K) → lookup k m ≡ none → remove k (insert k b m) ≡ m
  unfolding insert remove
  remove-insert_absent k b m h = ground (arith, remove_absent k m h)

-- ===== src/Cache/Lru.antt =====
-- What the cache promises, over a plain list of entries in the order of their last use.
use btc_rpc_proxy.Prelude.{
  ℕ, ◌+◌, ◌≤◌, ◌<◌, ◌≡◌, refl, Option, none, some, [], ◌∷◌, ◌++◌, arith, ltb, if◌then◌else◌, drop,
  length, Bool-cases, inl, inr, zero, suc,
}
use btc_rpc_proxy.Cache.Dict.{HashMap, Bytes, lookup, remove, total}

-- Drop the oldest entries until the rest fits.
unfoldable pub trim : {K : Type 0} → ℕ → HashMap K → HashMap K
trim max [] = []
trim max ((k, b) ∷ l) = if ltb max (total ((k, b) ∷ l)) then trim max l else (k, b) ∷ l

-- What is kept fits, it is what follows the entries dropped, and none was dropped without need.
pub trim_lem :
    {K : Type 0} (max : ℕ) (l : HashMap K)
    → (n : ℕ) × (trim max l ≡ drop n l)
      × (total (trim max l) ≤ max)
      × ((i : ℕ) → i < n → max < total (drop i l))
unfolding trim total
trim_lem max [] = (0, refl, omega arith, λ i h. absurd (omega arith))
trim_lem max ((k, b) ∷ l) = elim (Bool-cases (ltb max (length b + total l))) [
  | inl big ↦
      let (n, same, fits, needed) = trim_lem max l in
      (suc n, rw big same, rw big fits, skip (ground arith) needed)
  | inr small ↦ (0, rw small, rw small (ground arith), λ i h. absurd (omega arith))
]
  where
    skip :
        {n : ℕ}
        → max < total ((k, b) ∷ l)
        → ((i : ℕ) → i < n → max < total (drop i l))
        → (i : ℕ) → i < suc n
        → max < total (drop i ((k, b) ∷ l))
    skip here rest zero h = here
    skip here rest (suc i) h = rest i (omega arith)

module _ {K : Type 0} (dec : Discrete K) where
  -- A hit becomes the entry used last.
  unfoldable pub get : HashMap K → K → HashMap K × Option Bytes
  get l hash = elim (lookup dec hash l) [
    | none ↦ (l, none)
    | some block ↦ (remove dec hash l ++ ((hash, block) ∷ []), some block)
  ]

  -- A new entry is the one used last; one that is held stays where it is.
  unfoldable pub insert : ℕ → HashMap K → K → Bytes → HashMap K
  insert max l hash block = elim (lookup dec hash l) [
    | some _ ↦ l
    | none ↦ trim max (l ++ ((hash, block) ∷ []))
  ]

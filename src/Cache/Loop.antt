-- ===== src/Cache/Loop.antt =====
-- block_cache.rs: the `while` loop of `insert`, round by round.
use btc_rpc_proxy.Prelude.{
  ℕ, zero, suc, ◌<◌, ◌≤◌, ◌≡◌, refl, ◌⊎◌, inl, inr, Option, none, some, List, [], ◌∷◌, ltb,
  if◌then◌else◌, Bool-cases, length, arith, ltb-false,
}
use btc_rpc_proxy.Cache.{Inner, evict, release}
use btc_rpc_proxy.Cache.Dict.{HashMap, lookup, remove}

module _ {K : Type 0} (dec : Discrete K) (max_bytes : ℕ) where
  -- One round; `none` leaves the loop, by its condition or by the `break`.
  unfoldable round : Inner K → Option (Inner K)
  round i =
      if ltb max_bytes i.bytes
      then elim i.order [
        | [] ↦ none
        | evicted ∷ order ↦ some (record {
          blocks = remove dec evicted i.blocks;
          order = order;
          bytes = release (lookup dec evicted i.blocks) i.bytes;
        })
      ]
      else none

  -- So many rounds; `none` if the loop has not ended by then.
  unfoldable pub rounds : ℕ → Inner K → Option (Inner K)
  unfolding round
  rounds zero i = none
  rounds (suc n) i = elim (round i) [ none ↦ some i | some j ↦ rounds n j ]

  -- The state that `evict` gives from here.
  abbrev pub end : Inner K → Inner K
  end i = evict dec max_bytes i.order i.blocks i.bytes

  abbrev pub IsEnd : Inner K → Type 0
  IsEnd e = (e.bytes ≤ max_bytes) ⊎ (e.order ≡ [])

  abbrev state : List K → HashMap K → ℕ → Inner K
  state order blocks bytes = record { blocks = blocks; order = order; bytes = bytes }

  rounds-ends :
      (n : ℕ) (order : List K) (blocks : HashMap K) (bytes : ℕ)
      → length order < n
      → (rounds n (state order blocks bytes) ≡ some (end (state order blocks bytes)))
        × IsEnd (end (state order blocks bytes))
  unfolding rounds round evict
  rounds-ends zero order blocks bytes h = absurd (omega (arith, h))
  rounds-ends (suc n) [] blocks bytes h = elim (Bool-cases (ltb max_bytes bytes)) [
    | inl b ↦ rw (b, rounds, round) (refl, inr refl)
    | inr b ↦ rw (b, rounds, round) (refl, inr refl)
  ]
  rounds-ends (suc n) (k ∷ order) blocks bytes h = elim (Bool-cases (ltb max_bytes bytes)) [
    | inl b ↦
        rw (b, rounds, round, evict)
          (rounds-ends n order (remove dec k blocks) (release (lookup dec k blocks) bytes)
            (omega (arith, h)))
    | inr b ↦ rw (b, rounds, round, evict) (refl, inl (ltb-false max_bytes bytes b))
  ]

  -- The eviction loop of an insert ends after at most as many rounds as the queue is long and
  -- the one that leaves it, in the state that the eviction of the model gives, which is within
  -- the bound or has an empty queue.
  pub rounds-evict :
      (n : ℕ) (i : Inner K) → length i.order < n → (rounds n i ≡ some (end i)) × IsEnd (end i)
  rounds-evict n i h = rounds-ends n i.order i.blocks i.bytes h

-- ===== src/Fetch/Raw/Reach.antt =====
-- Every block that the cache ever holds, and every block that a fetch returns.
use btc_rpc_proxy.Prelude.{
  ℕ, ◌+◌, ◌<◌, ◌≡◌, sym, ◌∙◌, subst, ◌⊎◌, inl, inr, some, ok, arith, Option-cases, Result-cases,
}
use btc_rpc_proxy.Prelude.Text.{Bytes}
use mathlib.Core.Path.{subst₂}
use btc_rpc_proxy.Cache.{BlockCache, usize_mod, new, get, insert}
use btc_rpc_proxy.Cache.Laws.{IsValid, new-IsValid, get-IsValid}
use btc_rpc_proxy.Cache.Refines.{insert-IsValid}
use btc_rpc_proxy.Cache.Members.{held, insert-held, get-held, get-answer, new-held}
use btc_rpc_proxy.Fetch.Block.{Block, BlockHash, Bitcoin}
use btc_rpc_proxy.Fetch.Peer.{fetch_block_from_peers}
use btc_rpc_proxy.Fetch.Peer.Laws.{IsVerified, fetch_block_from_peers_sound}
use btc_rpc_proxy.Fetch.Raw.{
  Outside, hash_eq, fetch_block_from_self, store_block, from_peers, from_self, fetch_block_raw,
}

module _ (bc : Bitcoin) where
  -- The bytes are those of a block that passed the checks for this hash.
  abbrev pub IsChecked : BlockHash → Bytes → Type 0
  IsChecked hash bytes = (b : Block) × IsVerified bc hash b × (bc.consensus_encode b ≡ ok bytes)

  abbrev pub IsSound : BlockCache BlockHash → Type 0
  IsSound c =
      (hash : BlockHash) (bytes : Bytes) → held hash_eq c hash ≡ some bytes → IsChecked hash bytes

  -- The steps that requests take on the cache, in any interleaving: a lookup, and the end of a
  -- fetch whose lookup found nothing.
  pub data Step (R : Type 0) : BlockCache BlockHash → BlockCache BlockHash → Type 0 where
    looks : (c : BlockCache BlockHash) (hash : BlockHash) → Step R c (get hash_eq c hash).0
    ends :
        (c : BlockCache BlockHash) (hash : BlockHash) (o : Outside R)
        → Step R c (from_self bc o hash c).0

  pub data Reach (R : Type 0) (s : BlockCache BlockHash) : BlockCache BlockHash → Type 0 where
    here : Reach R s s
    next : {t u : BlockCache BlockHash} → Reach R s t → Step R t u → Reach R s u

  insert-IsSound :
      (c : BlockCache BlockHash) (hash : BlockHash) (bytes : Bytes)
      → IsChecked hash bytes
      → IsSound c
      → IsSound (insert hash_eq c hash bytes)
  insert-IsSound c hash bytes k s q x h = elim (insert-held hash_eq c hash q bytes x h) [
    | inl (e, f) ↦ subst₂ IsChecked e f k
    | inr old ↦ s q x old
  ]

  -- How `from_self` ends: the cache is as it was, or took a block that passed the checks, which is
  -- then the answer.
  from_self_cases :
      {R : Type 0} (o : Outside R) (hash : BlockHash) (c : BlockCache BlockHash)
      → (((from_self bc o hash c).0 ≡ c)
          × ((x : Bytes)
              → (from_self bc o hash c).1 ≡ ok (some x)
              → fetch_block_from_self o ≡ ok (some x)))
        ⊎ ((bytes : Bytes) × IsChecked hash bytes
            × ((from_self bc o hash c).0 ≡ insert hash_eq c hash bytes)
            × ((from_self bc o hash c).1 ≡ ok (some bytes)))
  unfolding from_self from_peers store_block
  from_self_cases o hash c = elim (Result-cases (fetch_block_from_self o)) [
    | inr (e, h) ↦ inl (rw (h, from_self), λ x k. absurd (ground arith))
    | inl (found, h) ↦ elim (Option-cases found) [
      | inr (b, f) ↦ inl (rw (h, f, from_self), λ x k. ground arith)
      | inl f ↦ elim (Result-cases o.get_peers) [
        | inr (e, p) ↦ inl (rw (h, f, p, from_self), λ x k. absurd (ground arith))
        | inl (u, p) ↦ elim (Option-cases (fetch_block_from_peers bc hash o.conversations)) [
          | inl n ↦ inl (ground arith, λ x k. absurd (ground arith))
          | inr (b, q) ↦ elim (Result-cases (bc.consensus_encode b)) [
            | inr (e, r) ↦ inl (ground arith, λ x k. absurd (ground arith))
            | inl (bytes, r) ↦ inr (
              bytes,
              (b, fetch_block_from_peers_sound bc hash o.conversations b q, r),
              ground arith,
              ground arith,
            )
          ]
        ]
      ]
    ]
  ]

  Step-IsSound : {R : Type 0} {c d : BlockCache BlockHash} → Step R c d → IsSound c → IsSound d
  Step-IsSound (looks c hash) s = λ q x h. s q x (sym (get-held hash_eq c hash q) ∙ h)
  Step-IsSound (ends c hash o) s = elim (from_self_cases o hash c) [
    | inl (same, _) ↦ subst IsSound (sym same) s
    | inr (bytes, k, stored, _) ↦ subst IsSound (sym stored) (insert-IsSound c hash bytes k s)
  ]

  Reach-IsSound :
      {R : Type 0} (max : ℕ) {c : BlockCache BlockHash} → Reach R (new max) c → IsSound c
  Reach-IsSound max here = λ q x h. absurd (ground (arith, new-held hash_eq max q))
  Reach-IsSound max (next r st) = Step-IsSound st (Reach-IsSound max r)

  -- In a cache that lookups and fetches in any interleaving reach from an empty one, a block
  -- that is held under a hash is the serialization of a block that passed the checks for that
  -- hash.
  pub Reach-IsChecked :
      {R : Type 0} (max : ℕ) (c : BlockCache BlockHash)
      → Reach R (new max) c
      → (hash : BlockHash) (bytes : Bytes) → held hash_eq c hash ≡ some bytes
      → IsChecked hash bytes
  Reach-IsChecked max c r hash bytes h = Reach-IsSound max r hash bytes h

  Step-IsValid :
      {R : Type 0} {c d : BlockCache BlockHash} → Step R c d → IsValid hash_eq c → IsValid hash_eq d
  Step-IsValid (looks c hash) v = get-IsValid hash_eq c hash v
  Step-IsValid (ends c hash o) v = elim (from_self_cases o hash c) [
    | inl (same, _) ↦ subst (IsValid hash_eq) (sym same) v
    | inr (bytes, k, stored, _) ↦
        subst (IsValid hash_eq) (sym stored) (insert-IsValid hash_eq c hash bytes v)
  ]

  -- A cache of a size below half the range of a usize that lookups and fetches reach in any
  -- interleaving is valid.
  pub Reach-IsValid :
      {R : Type 0} (max : ℕ) {c : BlockCache BlockHash}
      → max + max < usize_mod
      → Reach R (new max) c
      → IsValid hash_eq c
  Reach-IsValid max small here = new-IsValid hash_eq max small
  Reach-IsValid max small (next r st) = Step-IsValid st (Reach-IsValid max small r)

  -- The bytes that a fetch returns are bitcoind's own answer for the block, or the serialization
  -- of a block that passed the checks for the hash that was asked for, if the cache was reached
  -- from an empty one by lookups and fetches; the cache may change in any way between the lookup
  -- and the end.
  pub fetch_block_raw_sound :
      {R : Type 0} (o : Outside R) (hash : BlockHash)
      (meanwhile : BlockCache BlockHash → BlockCache BlockHash) (max : ℕ)
      (cache : BlockCache BlockHash) (x : Bytes)
      → Reach R (new max) cache
      → (fetch_block_raw bc o hash meanwhile cache).1 ≡ ok (some x)
      → (fetch_block_from_self o ≡ ok (some x)) ⊎ IsChecked hash x
  unfolding fetch_block_raw
  fetch_block_raw_sound o hash meanwhile max cache x r h =
      elim (Option-cases (get hash_eq cache hash).1) [
        | inr (b, hit) ↦
            inr (Reach-IsSound max r hash x (get-answer hash_eq cache hash x (ground arith)))
        | inl miss ↦ elim (from_self_cases o hash (meanwhile (get hash_eq cache hash).0)) [
          | inl (_, own) ↦ inl (own x (rw (miss, fetch_block_raw) at h))
          | inr (bytes, k, _, answer) ↦ inr (subst (IsChecked hash) (ground arith) k)
        ]
      ]

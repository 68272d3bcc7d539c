-- ===== src/Cache.antt =====
-- block_cache.rs: the bounded cache of blocks fetched from peers. A method returns the new state
-- beside its result; the mutex makes each of them one step. A `usize` wraps at `usize_mod`.
pub mod Dict
pub mod Holds
pub mod Lru
pub mod Queue
pub mod Entries
pub mod Laws
pub mod Refines
pub mod Runs
pub mod Members
pub mod Loop
use btc_rpc_proxy.Prelude.{
  ℕ, zero, suc, ◌+◌, ◌-◌, ◌%◌, ◌^◌, Bool, true, false, Option, none, some, List, [], ◌∷◌, ◌++◌, ltb,
  if◌then◌else◌, ite, length,
}
use Dict.{HashMap, Bytes, lookup, insert as map_insert, remove}
use Queue.{position, remove_at}

abbrev pub usize_mod : ℕ
usize_mod = 2 ^ 64

pub record Inner (K : Type 0) : Type 0 where
  pub blocks : HashMap K
  -- Least recently used at the front.
  pub order : List K
  pub bytes : ℕ

pub record BlockCache (K : Type 0) : Type 0 where
  pub max_bytes : ℕ
  pub inner : Inner K
  pub open inner use *

unfoldable pub new : {K : Type 0} → ℕ → BlockCache K
new max_bytes = record {
  max_bytes = max_bytes;
  inner = record { blocks = []; order = []; bytes = 0 };
}

unfoldable pub enabled : {K : Type 0} → BlockCache K → Bool
enabled c = ltb 0 c.max_bytes

-- Blocks held and bytes held.
unfoldable pub stats : {K : Type 0} → BlockCache K → ℕ × ℕ
stats c = (length c.blocks, c.bytes)

-- `inner.bytes -= block.len()`, for the block that left the map, if one did.
unfoldable pub release : Option Bytes → ℕ → ℕ
release none bytes = bytes
release (some block) bytes = (bytes + usize_mod - length block) % usize_mod

module _ {K : Type 0} (dec : Discrete K) where
  -- `order` with the hash at its back, if it stands there.
  unfoldable pub touch : K → List K → List K
  touch hash order = elim (position dec hash order) [
    | none ↦ order
    | some pos ↦ remove_at pos order ++ (hash ∷ [])
  ]

  unfoldable pub read : BlockCache K → K → BlockCache K × Option Bytes
  unfolding touch
  read c hash = elim (lookup dec hash c.blocks) [
    | none ↦ (c, none)
    | some block ↦ (record c { inner = record c.inner { order = touch hash c.order } }, some block)
  ]

  unfoldable pub get : BlockCache K → K → BlockCache K × Option Bytes
  unfolding enabled read
  get c hash = if enabled c then read c hash else (c, none)

  -- The `while` loop of `insert`: each round pops the front of the queue.
  unfoldable pub evict : ℕ → List K → HashMap K → ℕ → Inner K
  unfolding release
  evict max [] blocks bytes = record { blocks = blocks; order = []; bytes = bytes }
  evict max (k ∷ order) blocks bytes =
      let rest = evict max order (remove dec k blocks) (release (lookup dec k blocks) bytes) in
      if ltb max bytes then rest else record { blocks = blocks; order = k ∷ order; bytes = bytes }

  -- The part of `insert` that holds the lock.
  unfoldable pub store : BlockCache K → K → Bytes → BlockCache K
  unfolding evict
  store c hash block = elim (lookup dec hash c.blocks) [
    | some _ ↦ c
    | none ↦ record c {
      inner =
          evict c.max_bytes (c.order ++ (hash ∷ [])) (map_insert dec hash block c.blocks)
            ((c.bytes + length block) % usize_mod);
    }
  ]

  unfoldable pub insert : BlockCache K → K → Bytes → BlockCache K
  unfolding enabled store
  insert c hash block =
      if enabled c then (if ltb c.max_bytes (length block) then c else store c hash block) else c

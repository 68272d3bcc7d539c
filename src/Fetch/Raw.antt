-- ===== src/Fetch/Raw.antt =====
-- fetch_blocks.rs: `fetch_block_raw`, which asks the cache, then bitcoind, then the peers.
pub mod Reach
use btc_rpc_proxy.Prelude.{
  ℕ, zero, ◌≡◌, Bool, true, false, ◌&&◌, Option, none, some, List, [], ◌∷◌, String, Result, ok, err,
  ◌>>=◌, map_err, ok_or, if◌then◌else◌, ℕ_discrete,
}
use btc_rpc_proxy.Prelude.Int.{ℤ, pos, negsuc}
use btc_rpc_proxy.Prelude.Text.{Bytes}
use btc_rpc_proxy.Cache.{BlockCache, get, insert}
use btc_rpc_proxy.Client.Rpc.{
  RpcError, RpcResponse, from_error, into_result, misc_error_code, prune_error_message,
}
use btc_rpc_proxy.Util.{Either, into_left}
use btc_rpc_proxy.Fetch.Block.{Block, BlockHash, Bitcoin}
use btc_rpc_proxy.Fetch.Peer.{Conversation, fetch_block_from_peers}
use text.Mathlib.Text.{◌==◌ as str_eq}

unfoldable pub hash_eq : Discrete BlockHash
hash_eq = hlevel ℕ_discrete

unfoldable pub is_misc : ℤ → Bool
is_misc (negsuc zero) = true
is_misc _ = false

-- bitcoind's answer for a block that it has pruned.
unfoldable pub is_pruned : RpcError → Bool
is_pruned e = is_misc e.code && str_eq e.message prune_error_message

-- What the world answers during one fetch. `R` is the parsed form of a block.
pub record Outside (R : Type 0) : Type 0 where
  pub getblock : Result (RpcResponse (Either Bytes R)) RpcError
  pub from_null : Result (Either Bytes R) String
  pub get_peers : Result (Unit {0}) String
  pub conversations : List Conversation

unfoldable pub decoded : Bitcoin → Option Bytes → Result (Option Block) RpcError
decoded bc none = ok none
decoded bc (some bytes) = elim (bc.consensus_decode bytes) [
  | none ↦ err (from_error "consensus decode")
  | some block ↦ ok (some block)
]

module _ {R : Type 0} where
  -- The bytes of an answer, which is either form of a block.
  raw_form : Either Bytes R → Result (Option Bytes) RpcError
  raw_form b = elim (into_left b) [
    | none ↦ err (from_error "unexpected response for getblock")
    | some bytes ↦ ok (some bytes)
  ]

  own_answer : Result (Either Bytes R) RpcError → Result (Option Bytes) RpcError
  unfolding raw_form
  own_answer (ok b) = raw_form b
  own_answer (err e) = if is_pruned e then ok none else err e

  -- `none` if bitcoind has pruned the block.
  unfoldable pub fetch_block_from_self : Outside R → Result (Option Bytes) RpcError
  unfolding own_answer
  fetch_block_from_self o = o.getblock >>= λ response. own_answer (into_result o.from_null response)

module _ (bc : Bitcoin) {R : Type 0} (o : Outside R) (hash : BlockHash) where
  -- From the block that a peer sent to its bytes, and the cache that takes them.
  store_block :
      BlockCache BlockHash → Option Block → BlockCache BlockHash × Result (Option Bytes) RpcError
  store_block cache none = (cache, ok none)
  store_block cache (some block) = elim (bc.consensus_encode block) [
    | err e ↦ (cache, err (from_error e))
    | ok serialized ↦ (insert hash_eq cache hash serialized, ok (some serialized))
  ]

  from_peers : BlockCache BlockHash → BlockCache BlockHash × Result (Option Bytes) RpcError
  unfolding store_block
  from_peers cache = elim o.get_peers [
    | err e ↦ (cache, err (from_error e))
    | ok _ ↦ store_block cache (fetch_block_from_peers bc hash o.conversations)
  ]

  -- What follows a lookup that found nothing.
  unfoldable pub from_self :
      BlockCache BlockHash → BlockCache BlockHash × Result (Option Bytes) RpcError
  unfolding from_peers
  from_self cache = elim (fetch_block_from_self o) [
    | err e ↦ (cache, err e)
    | ok (some block) ↦ (cache, ok (some block))
    | ok none ↦ from_peers cache
  ]

  -- Between the lookup and the end of the fetch other requests run: `meanwhile` is what they do to
  -- the cache. The result is the cache at the end, and the answer.
  unfoldable pub fetch_block_raw :
      (BlockCache BlockHash → BlockCache BlockHash)
      → BlockCache BlockHash
      → BlockCache BlockHash × Result (Option Bytes) RpcError
  unfolding from_self
  fetch_block_raw meanwhile cache =
      let (cache', found) = get hash_eq cache hash in
      elim found [ some block ↦ (cache', ok (some block)) | none ↦ from_self (meanwhile cache') ]

  unfoldable pub fetch_block :
      (BlockCache BlockHash → BlockCache BlockHash)
      → BlockCache BlockHash
      → BlockCache BlockHash × Result (Option Block) RpcError
  unfolding decoded
  fetch_block meanwhile cache =
      let (cache', answer) = fetch_block_raw meanwhile cache in
      (cache', answer >>= λ raw. decoded bc raw)

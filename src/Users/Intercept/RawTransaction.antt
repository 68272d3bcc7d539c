-- ===== src/Users/Intercept/RawTransaction.antt =====
-- users.rs: `User::intercept_raw_transaction`.
use btc_rpc_proxy.Prelude.{
  Bool, true, false, Option, none, some, List, [], ◌∷◌, String, Result, ok, err, ◌>>=◌,
  if◌then◌else◌,
}
use btc_rpc_proxy.Prelude.Int.{ℤ, pos, negsuc}
use btc_rpc_proxy.Prelude.Text.{Bytes, bytes_eq}
use btc_rpc_proxy.Json.{Value, Fields, bool, number, int, string, object, insert, from_u64}
use btc_rpc_proxy.Cache.{BlockCache}
use btc_rpc_proxy.Client.Rpc.{
  RpcError, RpcRequest, RpcResponse, into_result, from_error, from_rpc_error,
}
use btc_rpc_proxy.Client.Batch.{try_join}
use btc_rpc_proxy.Util.{Either, into_right}
use btc_rpc_proxy.Fetch.Block.{Block, BlockHash, Bitcoin, Transaction, Txid}
use btc_rpc_proxy.Fetch.Raw.{Outside, fetch_block}
use btc_rpc_proxy.RpcMethods.Blocks.{GetBlockHeaderResult}
use btc_rpc_proxy.Users.Intercept.{Formats, Calls, interceptable, found, refused, pruned}

-- The cache after it, and the answer.
abbrev pub Answered : Type 0
Answered = BlockCache BlockHash × Result (Option (RpcResponse Value)) RpcError

unfoldable pub find_tx : Bitcoin → Txid → List Transaction → Option Transaction
find_tx bc txid [] = none
find_tx bc txid (tx ∷ txs) =
    let rest = find_tx bc txid txs in if bytes_eq (bc.txid tx) txid then some tx else rest

unfoldable pub in_active_chain : ℤ → Bool
in_active_chain (pos n) = true
in_active_chain (negsuc n) = false

-- The fields that come from the header, on an object.
unfoldable pub header_fields : Formats → String → BlockHash → GetBlockHeaderResult → Fields → Fields
header_fields f hex blockhash header obj =
    let active = in_active_chain header.confirmations in
    let confirmations = if active then header.confirmations else pos 0 in
    let all = insert "confirmations" (number (int confirmations)) (
      insert "blockhash" (f.crates.hash_to blockhash)
        (insert "hex" (string hex) (insert "in_active_chain" (bool active) obj))) in
    if active
    then insert "blocktime" (from_u64 header.time) (insert "time" (from_u64 header.time) all)
    else all

-- A value that is no object is left as it is.
unfoldable pub with_header : Formats → String → BlockHash → GetBlockHeaderResult → Value → Value
with_header f hex blockhash header (object obj) = object (header_fields f hex blockhash header obj)
with_header f hex blockhash header v = v

module _ (bc : Bitcoin) (f : Formats) (calls : Calls) where
  unfoldable pub verbose_reply :
      Option Value
      → String
      → BlockHash
      → Result (Value × Either Bytes GetBlockHeaderResult) RpcError
      → RpcResponse Value
  verbose_reply id hex blockhash (err e) = from_rpc_error e
  verbose_reply id hex blockhash (ok (decoded, header)) = elim (into_right header) [
    | none ↦ from_rpc_error (from_error "unexpected response for getblockheader")
    | some h ↦ found id (with_header f hex blockhash h decoded)
  ]

  -- The reply from a transaction that was found.
  unfoldable pub transaction_reply :
      Option Value → Bool → BlockHash → Transaction → RpcResponse Value
  unfolding verbose_reply
  transaction_reply id verbose blockhash tx =
      let hex = f.serialize_hex tx in
      let decoded = calls.decoderawtransaction hex >>= λ response.
      into_result calls.decoded_from_null response in
      let header =
        calls.getblockheader >>= λ response. into_result calls.header_from_null response in
      if verbose
      then verbose_reply id hex blockhash (try_join calls.decoded_first decoded header)
      else found id (string hex)

  -- The reply from what the fetch of the block gave.
  unfoldable pub block_reply :
      Option Value → Txid → Bool → BlockHash → Result (Option Block) RpcError → RpcResponse Value
  block_reply id txid verbose blockhash (err e) = from_rpc_error e
  block_reply id txid verbose blockhash (ok none) = pruned id
  block_reply id txid verbose blockhash (ok (some block)) = elim (find_tx bc txid block.txdata) [
    | none ↦ refused id "No such transaction found in the provided block."
    | some tx ↦ transaction_reply id verbose blockhash tx
  ]

  unfoldable pub intercept_raw_transaction :
      {R : Type 0}
      → Outside R
      → (BlockCache BlockHash → BlockCache BlockHash)
      → RpcRequest
      → List Value
      → BlockCache BlockHash
      → Answered
  intercept_raw_transaction o meanwhile req params cache = elim (interceptable f params) [
    | none ↦ (cache, ok none)
    | some (txid, verbose, blockhash) ↦
        let (cache', block) = fetch_block bc o blockhash meanwhile cache in
        (cache', ok (some (block_reply req.id txid verbose blockhash block)))
  ]

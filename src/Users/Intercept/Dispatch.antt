-- ===== src/Users/Intercept/Dispatch.antt =====
-- users.rs: `User::intercept`, which answers a request or leaves it to bitcoind.
use btc_rpc_proxy.Prelude.{
  Bool, true, false, ◌&&◌, Option, none, some, List, [], ◌∷◌, map, String, Result, ok, err, ◌>>=◌,
  map_err, ok_or, if◌then◌else◌, ◌==◌,
}
use btc_rpc_proxy.Prelude.Text.{Bytes}
use btc_rpc_proxy.Json.{Value, string}
use btc_rpc_proxy.Cache.{BlockCache, get}
use btc_rpc_proxy.Client.Rpc.{
  RpcError, RpcRequest, RpcResponse, GenericRpcParams, array, object, into_result, from_error,
  from_json_error, from_rpc_error, method_not_allowed_error_code, method_not_allowed_error_message,
}
use btc_rpc_proxy.Client.Reply.{forbidden}
use btc_rpc_proxy.Util.{Either, into_right}
use btc_rpc_proxy.Fetch.Block.{Block, BlockHash, Bitcoin}
use btc_rpc_proxy.Fetch.Raw.{Outside, hash_eq, fetch_block_raw, fetch_block}
use btc_rpc_proxy.RpcMethods.Blocks.{GetBlockHeaderResult, GetBlockResult, block_to}
use btc_rpc_proxy.Users.Intercept.{
  Formats, Calls, fetch_first, header_after_lookup, header_first, OutOfBounds, param, first_param,
  block_verbosity, found, pruned,
}
use btc_rpc_proxy.Users.Intercept.RawTransaction.{Answered, intercept_raw_transaction}
use btc_rpc_proxy.Users.Login.{User}
use text.Mathlib.Text.{◌==◌ as str_eq}

unfoldable pub contains : String → List String → Bool
contains s [] = false
contains s (t ∷ ts) = let rest = contains s ts in if str_eq t s then true else rest

-- Whether the user may call the method: every method, without a list of them.
unfoldable pub is_allowed : User → String → Bool
is_allowed u method = elim u.allowed_calls [ none ↦ true | some ac ↦ contains method ac ]

abbrev pub not_allowed : RpcError
not_allowed = record {
  code = method_not_allowed_error_code;
  message = method_not_allowed_error_message;
  status = some forbidden;
}

module _ (f : Formats) where
  unfoldable pub raw_reply : Option Value → Result (Option Bytes) RpcError → RpcResponse Value
  raw_reply id (ok (some block)) = found id (string (f.crates.encode block))
  raw_reply id (ok none) = pruned id
  raw_reply id (err e) = from_rpc_error e

  -- `strippedsize` is left out where it is the size.
  unfoldable pub block_result : Block → List Bytes → GetBlockHeaderResult → GetBlockResult
  block_result block txids header = record {
    header = header;
    size = f.size block;
    strippedsize =
        if f.strippedsize block == f.size block then none else some (f.strippedsize block);
    weight = f.weight block;
    tx = txids;
  }

  -- `serde_json::to_value`, which fails for no value of this type.
  abbrev to_value : GetBlockResult → Result Value String
  to_value r = ok (block_to f.crates r)

  unfoldable pub summary_reply :
      Bitcoin
      → Option Value
      → Result (Either Bytes GetBlockHeaderResult × Option Block) RpcError
      → Result (Option (RpcResponse Value)) RpcError
  summary_reply bc id (err e) = ok (some (from_rpc_error e))
  summary_reply bc id (ok (header, none)) = ok (some (pruned id))
  summary_reply bc id (ok (header, some block)) = do
    h ← ok_or (into_right header) (from_error "unexpected response for getblockheader")
    v ← map_err from_json_error (to_value (block_result block (map bc.txid block.txdata) h))
    ok (some (found id v))

module _ (bc : Bitcoin) (f : Formats) (calls : Calls) {R : Type 0} (o : Outside R)
    (meanwhile : BlockCache BlockHash → BlockCache BlockHash) where
  -- `try_join!` of the header's call and the fetch. A header that fails first ends the fetch where
  -- it stands.
  unfoldable pub beside :
      BlockHash
      → BlockCache BlockHash
      → BlockCache BlockHash × Result (Either Bytes GetBlockHeaderResult × Option Block) RpcError
  beside hash cache =
      let header =
        calls.getblockheader >>= λ response. into_result calls.header_from_null response in
      let (cache', block) = fetch_block bc o hash meanwhile cache in
      let ended = block >>= λ b. header >>= λ h. ok (h, b) in
      elim header [
        | ok h ↦ (cache', ended)
        | err e ↦ elim calls.race [
          | fetch_first ↦ (cache', ended)
          | header_after_lookup ↦ (meanwhile (get hash_eq cache hash).0, err e)
          | header_first ↦ (cache, err e)
        ]
      ]

  -- `getblock` of verbosity 0.
  unfoldable pub getblock_raw :
      Option Value → BlockCache BlockHash → Result BlockHash String → Answered
  getblock_raw id cache (err m) = (cache, err (from_error m))
  getblock_raw id cache (ok hash) =
      let (cache', block) = fetch_block_raw bc o hash meanwhile cache in
      (cache', ok (some (raw_reply f id block)))

  -- `getblock` of verbosity 1.
  unfoldable pub getblock_summary :
      Option Value → BlockCache BlockHash → Result BlockHash String → Answered
  unfolding summary_reply beside
  getblock_summary id cache (err m) = (cache, err (from_error m))
  getblock_summary id cache (ok hash) =
      let (cache', both) = beside hash cache in (cache', summary_reply f bc id both)

  unfoldable pub getblock :
      RpcRequest → List Value → BlockCache BlockHash → Result Answered OutOfBounds
  unfolding getblock_raw getblock_summary
  getblock req params cache = elim (block_verbosity (param 1 params)) [
    | none ↦ ok (cache, ok none)
    | some false ↦ first_param params >>= λ v. ok (getblock_raw req.id cache (f.hash_from_value v))
    | some true ↦
        first_param params >>= λ v. ok (getblock_summary req.id cache (f.hash_from_value v))
  ]

  unfoldable pub by_params :
      User → RpcRequest → GenericRpcParams → BlockCache BlockHash → Result Answered OutOfBounds
  by_params u req (array params) cache =
      let block = getblock req params cache in
      let transaction = intercept_raw_transaction bc f calls o meanwhile req params cache in
      if u.fetch_blocks && str_eq req.method "getblock"
      then block
      else (if u.fetch_blocks && str_eq req.method "getrawtransaction"
          then ok transaction
          else ok (cache, ok none))
  by_params u req (object fields) cache = ok (cache, ok none)

  -- `none` leaves the request to bitcoind.
  unfoldable pub intercept : User → RpcRequest → BlockCache BlockHash → Result Answered OutOfBounds
  unfolding by_params
  intercept u req cache =
      let permitted = by_params u req req.params cache in
      if is_allowed u req.method then permitted else ok (cache, err not_allowed)

-- ===== src/Users/Intercept.antt =====
-- users.rs: what `User::intercept` reads from a request, and what it takes from outside.
pub mod RawTransaction
pub mod Dispatch
pub mod Laws
pub mod Sound
pub mod Completed
pub mod Verbose
pub mod Blocks
use btc_rpc_proxy.Prelude.{
  ℕ, zero, suc, Bool, true, false, Option, none, some, List, [], ◌∷◌, String, Result, ok, err,
}
use btc_rpc_proxy.Prelude.Text.{Bytes}
use btc_rpc_proxy.Json.{Value, Fields, null, bool, number, as_u64}
use btc_rpc_proxy.Client.Rpc.{RpcError, RpcResponse, misc_error_code, prune_error_message}
use btc_rpc_proxy.Util.{Either}
use btc_rpc_proxy.RpcMethods.Results.{Crates}
use btc_rpc_proxy.RpcMethods.Blocks.{GetBlockHeaderResult}
use btc_rpc_proxy.Fetch.Block.{Block, BlockHash, Transaction, Txid}
use btc_rpc_proxy.Fetch.Raw.{Outside}

-- The functions of serde_json, hex and bitcoin that the interception calls.
pub record Formats : Type 0 where
  pub hash_from_value : Value → Result BlockHash String
  pub txid_from_value : Value → Result Txid String
  pub crates : Crates
  pub serialize_hex : Transaction → String
  pub size : Block → ℕ
  pub strippedsize : Block → ℕ
  pub weight : Block → ℕ

-- How `getblockheader` and the fetch of the block ran beside each other: the fetch ended before the
-- header's call did, or that call failed after the fetch's lookup, or before it.
pub data Race : Type 0 where
  fetch_first : Race
  header_after_lookup : Race
  header_first : Race

-- What the world answers during one interception, besides the fetch: the two calls of bitcoind,
-- what their response types make of a `null`, and the order in which things happened.
pub record Calls : Type 0 where
  pub getblockheader : Result (RpcResponse (Either Bytes GetBlockHeaderResult)) RpcError
  pub header_from_null : Result (Either Bytes GetBlockHeaderResult) String
  pub decoderawtransaction : String → Result (RpcResponse Value) RpcError
  pub decoded_from_null : Result Value String
  pub race : Race
  pub decoded_first : Bool

-- `params[0]` of an empty list.
pub data OutOfBounds : Type 0 where
  index_out_of_bounds : OutOfBounds

-- `params.get(i)`
unfoldable pub param : ℕ → List Value → Option Value
param i [] = none
param zero (v ∷ vs) = some v
param (suc i) (v ∷ vs) = param i vs

-- `params[0]`
unfoldable pub first_param : List Value → Result Value OutOfBounds
first_param [] = err index_out_of_bounds
first_param (v ∷ vs) = ok v

number_verbosity : Option ℕ → Option Bool
number_verbosity (some zero) = some false
number_verbosity (some (suc zero)) = some true
number_verbosity _ = none

-- The verbosity of `getblock`, which is 1 if it is left out; `none` if it is neither 0 nor 1.
unfoldable pub block_verbosity : Option Value → Option Bool
unfolding number_verbosity
block_verbosity none = some true
block_verbosity (some (number n)) = number_verbosity (as_u64 n)
block_verbosity (some _) = none

-- The verbosity of `getrawtransaction`, which is false if it is left out or `null`.
unfoldable pub transaction_verbosity : Option Value → Option Bool
unfolding number_verbosity
transaction_verbosity none = some false
transaction_verbosity (some null) = some false
transaction_verbosity (some (bool b)) = some b
transaction_verbosity (some (number n)) = number_verbosity (as_u64 n)
transaction_verbosity (some _) = none

-- `Result::ok`
abbrev pub as_option : {A E : Type 0} → Result A E → Option A
as_option (ok a) = some a
as_option (err e) = none

module _ (f : Formats) where
  -- `none` passes the request through to bitcoind.
  unfoldable pub interceptable : List Value → Option (Txid × Bool × BlockHash)
  interceptable params = elim (param 2 params) [
    | none ↦ none
    | some third ↦ elim (as_option (f.hash_from_value third)) [
      | none ↦ none
      | some blockhash ↦ elim (transaction_verbosity (param 1 params)) [
        | none ↦ none
        | some verbose ↦ elim (param 0 params) [
          | none ↦ none
          | some first ↦ elim (as_option (f.txid_from_value first)) [
            | none ↦ none
            | some txid ↦ some (txid, verbose, blockhash)
          ]
        ]
      ]
    ]
  ]

-- A reply that holds a result.
abbrev pub found : Option Value → Value → RpcResponse Value
found id v = record { id = id; error = none; result = some v }

-- A reply that holds an error of the code that bitcoind uses for most.
abbrev pub refused : Option Value → String → RpcResponse Value
refused id message = record {
  id = id;
  error = some (record { code = misc_error_code; message = message; status = none });
  result = none;
}

-- The reply for a block that no peer has.
abbrev pub pruned : Option Value → RpcResponse Value
pruned id = refused id prune_error_message

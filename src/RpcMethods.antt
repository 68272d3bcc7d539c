-- ===== src/RpcMethods.antt =====
-- rpc_methods.rs: the methods of bitcoind that the proxy calls itself, and their parameters.
pub mod Laws
pub mod Results
pub mod Blocks
use btc_rpc_proxy.Prelude.{
  ℕ, Bool, Option, none, some, List, [], ◌∷◌, ◌++◌, String, Result, ok, err, if◌then◌else◌,
}
use btc_rpc_proxy.Prelude.Text.{Bytes}
use btc_rpc_proxy.Json.{Value, string, bool, null, from_u64}
use btc_rpc_proxy.Client.Rpc.{RpcRequest, GenericRpcParams, array}
use text.Mathlib.Text.{◌==◌}

pub data Method : Type 0 where
  get_block get_block_header get_peer_info get_raw_transaction : Method
  decode_raw_transaction get_blockchain_info : Method

-- `RpcMethod::as_str`
unfoldable pub as_str : Method → String
as_str get_block = "getblock"
as_str get_block_header = "getblockheader"
as_str get_peer_info = "getpeerinfo"
as_str get_raw_transaction = "getrawtransaction"
as_str decode_raw_transaction = "decoderawtransaction"
as_str get_blockchain_info = "getblockchaininfo"

-- The methods that have a `Deserialize`.
abbrev pub HasDeserialize : Method → Type 0
HasDeserialize get_raw_transaction = ⊥
HasDeserialize decode_raw_transaction = ⊥
HasDeserialize _ = Unit

-- The name that is read must be that of the method.
unfoldable pub deserialize : (m : Method) → HasDeserialize m → Value → Option Method
deserialize m h (string s) = if s == as_str m then some m else none
deserialize m h _ = none

-- `skip_serializing_if = "Option::is_none"`, in a tuple.
abbrev pub unless_none : {A : Type 0} → (A → Value) → Option A → List Value
unless_none f none = []
unless_none f (some a) = f a ∷ []

-- The parameters of each method. Hashes are bytes, and `hash_to_value` is how they are written.
pub data Params : Method → Type 0 where
  block : (hash : Bytes) → Option ℕ → Params get_block
  header : (hash : Bytes) → Option Bool → Params get_block_header
  peers : Params get_peer_info
  transaction : (txid : Bytes) → Option Value → Option Bytes → Params get_raw_transaction
  decode : String → Params decode_raw_transaction
  chain : Params get_blockchain_info

module _ (hash_to_value : Bytes → Value) where
  unfoldable pub params_to : {m : Method} → Params m → List Value
  params_to (block hash verbosity) = hash_to_value hash ∷ unless_none from_u64 verbosity
  params_to (header hash verbose) = hash_to_value hash ∷ unless_none bool verbose
  params_to peers = []
  params_to (transaction txid verbose hash) =
      hash_to_value txid ∷ (unless_none (λ v. v) verbose ++ unless_none hash_to_value hash)
  params_to (decode hex) = string hex ∷ []
  params_to chain = []

  -- A request of the proxy's own: without a version and without an id.
  unfoldable pub own_request : (m : Method) → Params m → RpcRequest
  own_request m p = record {
    jsonrpc = none;
    id = none;
    method = as_str m;
    params = array (params_to p);
  }

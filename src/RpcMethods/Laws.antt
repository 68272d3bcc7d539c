-- ===== src/RpcMethods/Laws.antt =====
-- rpc_methods.rs: that a method is told by its name, and what a call of the proxy's own says.
use btc_rpc_proxy.Prelude.{ℕ, Bool, String, Option, none, some, if◌then◌else◌}
use btc_rpc_proxy.Prelude.Text.{Bytes}
use btc_rpc_proxy.Json.{
  Value, Items, Fields, nil, cons, field, end, bool, number, int, string, array,
}
use btc_rpc_proxy.Prelude.Int.{pos}
use text.Mathlib.Text.{◌==◌}
use btc_rpc_proxy.RpcMethods.{
  Method, get_block, get_block_header, get_peer_info, get_raw_transaction, decode_raw_transaction,
  get_blockchain_info, as_str, Params, block, header, peers, transaction, decode, chain,
}

named : String → Option Method
unfolding as_str
named s =
    if s == as_str get_block
    then some get_block
    else if s == as_str get_block_header
    then some get_block_header
    else if s == as_str get_peer_info
    then some get_peer_info
    else if s == as_str get_raw_transaction
    then some get_raw_transaction
    else if s == as_str decode_raw_transaction
    then some decode_raw_transaction
    else if s == as_str get_blockchain_info
    then some get_blockchain_info
    else none

-- The name and the parameters that bitcoind documents for each call, an optional one left out or
-- in its place behind those before it.
pub data IsCalled (hash_to_value : Bytes → Value)
    : (m : Method) → Params m → String → Items → Type 0 where
  getblock :
      (hash : Bytes)
      → IsCalled hash_to_value get_block
          (block hash none)
          "getblock"
          (cons (hash_to_value hash) nil)
  getblock_verbosity :
      (hash : Bytes) (n : ℕ)
      → IsCalled hash_to_value get_block
          (block hash (some n))
          "getblock"
          (cons (hash_to_value hash) (cons (number (int (pos n))) nil))
  getblockheader :
      (hash : Bytes)
      → IsCalled hash_to_value get_block_header
          (header hash none)
          "getblockheader"
          (cons (hash_to_value hash) nil)
  getblockheader_verbose :
      (hash : Bytes) (verbose : Bool)
      → IsCalled hash_to_value get_block_header
          (header hash (some verbose))
          "getblockheader"
          (cons (hash_to_value hash) (cons (bool verbose) nil))
  getpeerinfo : IsCalled hash_to_value get_peer_info peers "getpeerinfo" nil
  getrawtransaction :
      (txid : Bytes)
      → IsCalled hash_to_value get_raw_transaction
          (transaction txid none none)
          "getrawtransaction"
          (cons (hash_to_value txid) nil)
  getrawtransaction_verbose :
      (txid : Bytes) (verbose : Value)
      → IsCalled hash_to_value get_raw_transaction
          (transaction txid (some verbose) none)
          "getrawtransaction"
          (cons (hash_to_value txid) (cons verbose nil))
  getrawtransaction_in :
      (txid hash : Bytes)
      → IsCalled hash_to_value get_raw_transaction
          (transaction txid none (some hash))
          "getrawtransaction"
          (cons (hash_to_value txid) (cons (hash_to_value hash) nil))
  getrawtransaction_verbose_in :
      (txid : Bytes) (verbose : Value) (hash : Bytes)
      → IsCalled hash_to_value get_raw_transaction
          (transaction txid (some verbose) (some hash))
          "getrawtransaction"
          (cons (hash_to_value txid) (cons verbose (cons (hash_to_value hash) nil)))
  decoderawtransaction :
      (hex : String)
      → IsCalled hash_to_value decode_raw_transaction
          (decode hex)
          "decoderawtransaction"
          (cons (string hex) nil)
  getblockchaininfo : IsCalled hash_to_value get_blockchain_info chain "getblockchaininfo" nil

-- The object of a call without a version and an id.
abbrev pub call_object : String → Items → Fields
call_object name args = field "method" (string name) (field "params" (array args) end)

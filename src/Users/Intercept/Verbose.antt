-- ===== src/Users/Intercept/Verbose.antt =====
-- users.rs: what the reply to a verbose `getrawtransaction` holds.
use btc_rpc_proxy.Prelude.{◌≡◌, Bool, true, false, some, ok, ◌>>=◌}
use btc_rpc_proxy.Prelude.Text.{Bytes}
use btc_rpc_proxy.Json.{Value, string}
use btc_rpc_proxy.Util.{Either, into_right}
use btc_rpc_proxy.Cache.{BlockCache}
use btc_rpc_proxy.Client.Rpc.{into_result}
use btc_rpc_proxy.Fetch.Block.{Block, BlockHash, Bitcoin, Transaction}
use btc_rpc_proxy.Fetch.Raw.{Outside}
use btc_rpc_proxy.Fetch.Raw.Reach.{Reach}
use btc_rpc_proxy.RpcMethods.Blocks.{GetBlockHeaderResult}
use btc_rpc_proxy.Users.Intercept.{Formats, Calls}
use btc_rpc_proxy.Users.Intercept.Completed.{IsRendered}

module _ (bc : Bitcoin) {R : Type 0} (o : Outside R)
    (meanwhile : BlockCache BlockHash → BlockCache BlockHash) (f : Formats) (calls : Calls) where
  -- The reply's value is bitcoind's decoding of the transaction, completed from its header.
  pub record IsVerbose (hash : BlockHash) (tx : Transaction) (v : Value) : Type 0 where
    pub decoded : Value
    pub said : Either Bytes GetBlockHeaderResult
    pub header : GetBlockHeaderResult
    pub decodes :
        (calls.decoderawtransaction (f.serialize_hex tx) >>= λ response.
        into_result calls.decoded_from_null response)
        ≡ ok decoded
    pub header_said :
        (calls.getblockheader >>= λ response. into_result calls.header_from_null response) ≡ ok said
    pub is_right : into_right said ≡ some header
    pub rendered : IsRendered f (f.serialize_hex tx) hash header decoded v

  -- The value that answers for a transaction: its encoding, or the verbose form.
  pub data IsReply (hash : BlockHash) (tx : Transaction) (v : Value) : Bool → Type 0 where
    encoded : v ≡ string (f.serialize_hex tx) → IsReply hash tx v false
    verbose : IsVerbose hash tx v → IsReply hash tx v true

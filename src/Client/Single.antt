-- ===== src/Client/Single.antt =====
-- client.rs: the arm of `RpcClient::send` for a request that is no batch.
use btc_rpc_proxy.Prelude.{Option, none, some, String, Result, ok, err, ◌>>=◌}
use btc_rpc_proxy.Json.{Value}
use btc_rpc_proxy.Client.Rpc.{RpcRequest, RpcResponse, RpcError, from_rpc_error}
use btc_rpc_proxy.Client.Reply.{Bytes, Response, into_response_to}

-- The calls that leave the repository, each with its error's message. The answer of `request` is
-- passed on as it is.
pub record Forward : Type 0 where
  pub parse_path : Result (Unit {0}) String
  pub try_load : Result Bytes String
  pub from_parts : Result (Unit {0}) String
  pub to_string : RpcRequest → Result Bytes String
  pub request : Bytes → Bytes → Result Response String

-- The request as it is, to bitcoind.
unfoldable pub forward : Forward → RpcRequest → Result Response String
forward fw req = do
  path ← fw.parse_path
  authorization ← fw.try_load
  uri ← fw.from_parts
  body ← fw.to_string req
  fw.request authorization body

-- `outcome` is what `intercept` answered.
unfoldable pub send_single :
    (Value → Result Bytes String)
    → Forward
    → RpcRequest
    → Result (Option (RpcResponse Value)) RpcError
    → Result Response String
send_single to_vec fw req (ok none) = forward fw req
send_single to_vec fw req (ok (some res)) = into_response_to to_vec res req
send_single to_vec fw req (err e) = into_response_to to_vec (from_rpc_error e) req

-- ===== src/Tests/Calling.antt =====
-- Calls of bitcoind by the proxy itself.
use btc_rpc_proxy.Prelude.{ℕ, none, some, [], ◌∷◌, ok}
use btc_rpc_proxy.Prelude.Text.{Bytes, codes}
use btc_rpc_proxy.Json.{Value, string}
use btc_rpc_proxy.Client.Rpc.{RpcResponse}
use btc_rpc_proxy.Client.Call.{Transport}
use btc_rpc_proxy.RpcMethods.{get_block, Params, block}

abbrev hash_to_value : Bytes → Value
hash_to_value hash = string "00"

abbrev raw_block : Params get_block
raw_block = block (0 ∷ []) (some 0)

abbrev response : RpcResponse ℕ
response = record { id = none; error = none; result = some 3 }

abbrev transport : Transport ℕ
transport = record {
  try_load = ok (codes "Basic a");
  to_string = λ req. ok (codes "{}");
  build = λ auth text. ok text;
  request = λ built. ok (200, ok (codes "3"));
  from_slice = λ body. ok response;
}

-- ===== src/Tests/Reading.antt =====
-- Requests as they are read and written.
use btc_rpc_proxy.Prelude.{◌≡◌, refl, none, some, [], ◌∷◌, ok}
use btc_rpc_proxy.Json.{null, string, from_u64, field, end, member}
use btc_rpc_proxy.Client.Rpc.{RpcRequest, array, object}
use btc_rpc_proxy.Client.Request.{batch, deserialize, serialize}
use btc_rpc_proxy.Client.Request.Laws.{deserialize-serialize}

abbrev by_name : RpcRequest
by_name = record {
  jsonrpc = some (string "2.0");
  id = some null;
  method = "getblock";
  params = object (field "hash" (string "00") (field "verbosity" (from_u64 0) end));
}

abbrev by_position : RpcRequest
by_position = record { jsonrpc = none; id = none; method = "getpeerinfo"; params = array [] }

deserialize-serialize_example :
    deserialize (serialize (batch (by_name ∷ by_position ∷ [])))
    ≡ ok (batch (by_name ∷ by_position ∷ []))
unfolding member
deserialize-serialize_example =
    deserialize-serialize (batch (by_name ∷ by_position ∷ []))
      (((λ e. absurd (cc)), (refl, (refl, tt))), ((tt, tt), tt))

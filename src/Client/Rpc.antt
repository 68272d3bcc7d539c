-- ===== src/Client/Rpc.antt =====
-- client.rs: the JSON-RPC messages, as the proxy reads and writes them.
use btc_rpc_proxy.Prelude.{
  ℕ, Bool, true, false, ◌&&◌, Option, none, some, List, String, Result, ok, err,
}
use btc_rpc_proxy.Prelude.Int.{ℤ, negsuc}
use btc_rpc_proxy.Json.{Value, Fields, as_str}
use text.Mathlib.Text.{◌==◌}

abbrev pub misc_error_code : ℤ
misc_error_code = negsuc 0

abbrev pub method_not_allowed_error_code : ℤ
method_not_allowed_error_code = negsuc 32603

abbrev pub parse_error_code : ℤ
parse_error_code = negsuc 32699

abbrev pub method_not_allowed_error_message : String
method_not_allowed_error_message = "Method not allowed"

abbrev pub prune_error_message : String
prune_error_message = "Block not available (pruned data)"

pub data GenericRpcParams : Type 0 where
  array : List Value → GenericRpcParams
  object : Fields → GenericRpcParams

-- `RpcRequest<GenericRpcMethod>`. An `id` that is `null` is not a missing one.
pub record RpcRequest : Type 0 where
  pub jsonrpc : Option Value
  pub id : Option Value
  pub method : String
  pub params : GenericRpcParams

unfoldable pub is_two : Option String → Bool
is_two none = false
is_two (some s) = s == "2.0"

unfoldable pub is_v2 : RpcRequest → Bool
unfolding is_two as_str
is_v2 req = elim req.jsonrpc [ none ↦ false | some v ↦ is_two (as_str v) ]

-- `Option::is_none`
abbrev pub is_none : {A : Type 0} → Option A → Bool
is_none none = true
is_none (some a) = false

unfoldable pub is_notification : RpcRequest → Bool
is_notification req = is_none req.id && is_v2 req

pub record RpcError : Type 0 where
  pub code : ℤ
  pub message : String
  pub status : Option ℕ

-- `RpcError::from` an `anyhow::Error`, by its message.
abbrev pub from_error : String → RpcError
from_error message = record { code = misc_error_code; message = message; status = none }

-- `RpcError::from` a `serde_json::Error`, by its message.
abbrev pub from_json_error : String → RpcError
from_json_error message = record { code = parse_error_code; message = message; status = none }

-- `RpcResponse<T>`, by the type of `T::Response`.
pub record RpcResponse (R : Type 0) : Type 0 where
  pub id : Option Value
  pub error : Option RpcError
  pub result : Option R

-- `RpcResponse::from` an `RpcError`.
abbrev pub from_rpc_error : RpcError → RpcResponse Value
from_rpc_error e = record { id = none; error = some e; result = none }

-- `into_result`; `from_null` is what the response type makes of `Value::Null`.
unfoldable pub into_result : {R : Type 0} → Result R String → RpcResponse R → Result R RpcError
into_result from_null r = elim r.error [
  | some e ↦ err e
  | none ↦ elim r.result [
    | some v ↦ ok v
    | none ↦ elim from_null [ ok v ↦ ok v | err m ↦ err (from_error m) ]
  ]
]

-- ===== src/Client/Response.antt =====
-- client.rs: how the proxy reads a response of bitcoind, by the code that serde derives.
pub mod Laws
pub mod Delivered
use btc_rpc_proxy.Prelude.{ℕ, Option, none, some, String, Result, ok, err, ◌>>=◌, map_err}
use btc_rpc_proxy.Prelude.Int.{ℤ}
use btc_rpc_proxy.Prelude.Text.{Bytes}
use btc_rpc_proxy.Json.{Value, string, object}
use btc_rpc_proxy.Client.Rpc.{RpcError, RpcResponse}
use btc_rpc_proxy.Client.Request.{value_from}
use btc_rpc_proxy.Serde.{DecodeError, Struct, no_fields, with, Values, from_value, write}
use btc_rpc_proxy.Serde.Codecs.{required, optional, string_from, signed_from, signed_to}

-- `RpcError`, whose status is skipped.
abbrev pub rpc_error : Struct
rpc_error =
    with "code" ℤ (required (signed_from 63) signed_to)
      (with "message" String (required string_from string) no_fields)

abbrev pub error_of : Values rpc_error → RpcError
error_of (code, (message, _)) = record { code = code; message = message; status = none }

abbrev pub error_values : RpcError → Values rpc_error
error_values e = (e.code, (e.message, tt))

unfoldable pub error_from : Value → Result RpcError DecodeError
error_from v = from_value rpc_error v >>= λ w. ok (error_of w)

unfoldable pub error_to : RpcError → Value
error_to e = object (write rpc_error (error_values e))

module _ {R : Type 0} (from : Value → Result R DecodeError) (to : R → Value) where
  -- `RpcResponse<T>`, by how `T::Response` is read and written.
  abbrev pub rpc_response : Struct
  rpc_response = with "id" (Option Value) (optional value_from (λ v. v)) (
      with "error" (Option RpcError) (optional error_from error_to)
        (with "result" (Option R) (optional from to) no_fields))

  abbrev pub response_of : Values rpc_response → RpcResponse R
  response_of (id, (error, (result, _))) = record { id = id; error = error; result = result }

  abbrev pub response_values : RpcResponse R → Values rpc_response
  response_values r = (r.id, (r.error, (r.result, tt)))

  unfoldable pub response_from : Value → Result (RpcResponse R) DecodeError
  response_from v = from_value rpc_response v >>= λ w. ok (response_of w)

  -- `serde_json::from_slice`: what the text is, and what the response type makes of it.
  unfoldable pub from_slice :
      (Bytes → Result Value String) → (DecodeError → String) → Bytes → Result (RpcResponse R) String
  from_slice parse display body = parse body >>= λ v. map_err display (response_from v)

-- ===== src/Client/Reply.antt =====
-- client.rs: the replies that the proxy writes itself, and their HTTP status.
pub mod Laws
use btc_rpc_proxy.Prelude.{
  ℕ, ◌≡◌, refl, Bool, true, false, not, ◌&&◌, Option, none, some, List, [], ◌∷◌, String,
  if◌then◌else◌, Result, ok, err, ◌>>=◌, length,
}
use btc_rpc_proxy.Json.{Value, Fields, end, field, object, null, string, number, int}
use btc_rpc_proxy.Client.Rpc.{RpcRequest, RpcResponse, RpcError, is_v2, is_notification, is_none}

-- The serialization of an error; `status` is skipped.
unfoldable pub error_value : RpcError → Value
error_value e = object (field "code" (number (int e.code)) (field "message" (string e.message) end))

-- The serialization of an `Option`.
abbrev pub or_null : Option Value → Value
or_null none = null
or_null (some v) = v

abbrev pub error_or_null : Option RpcError → Value
error_or_null none = null
error_or_null (some e) = error_value e

-- The members of `into_reply`'s object.
unfoldable pub reply_fields : RpcResponse Value → RpcRequest → Fields
reply_fields r req =
    let id = or_null req.id in
    let v2 : Fields = elim r.error [
      | some e ↦ field "jsonrpc" (string "2.0") (field "error" (error_value e) (field "id" id end))
      | none ↦
          field "jsonrpc" (string "2.0") (field "result" (or_null r.result) (field "id" id end))
    ] in
    if not (is_v2 req)
    then field "id" id
        (field "error" (error_or_null r.error) (field "result" (or_null r.result) end))
    else v2

unfoldable pub into_reply : RpcResponse Value → RpcRequest → Value
unfolding reply_fields
into_reply r req = object (reply_fields r req)

abbrev pub Bytes : Type 0
Bytes = List ℕ

pub record Response : Type 0 where
  pub status : ℕ
  pub content_length : Option ℕ
  pub www_authenticate : Option String
  pub body : Bytes

-- `StatusCode`
abbrev pub status_ok : ℕ
status_ok = 200

abbrev pub no_content : ℕ
no_content = 204

abbrev pub forbidden : ℕ
forbidden = 403

abbrev pub internal_server_error : ℕ
internal_server_error = 500

abbrev pub with_body : ℕ → Bytes → Response
with_body status body = record {
  status = status;
  content_length = some (length body);
  www_authenticate = none;
  body = body;
}

abbrev pub empty_body : ℕ → Response
empty_body status = record {
  status = status;
  content_length = none;
  www_authenticate = none;
  body = [];
}

-- `self.error.as_ref().and_then(|e| e.status)`
abbrev pub own_status : Option RpcError → Option ℕ
own_status none = none
own_status (some e) = e.status

-- `to_vec` is `serde_json::to_vec`.
module _ (to_vec : Value → Result Bytes String) where
  unfoldable pub into_response_to : RpcResponse Value → RpcRequest → Result Response String
  into_response_to r req =
      let reply =
        λ (status : ℕ). to_vec (into_reply r req) >>= λ body. ok (with_body status body) in
      let unset =
        if is_notification req
        then ok (empty_body no_content)
        else (if not (is_none r.error) && not (is_v2 req)
            then reply internal_server_error
            else reply status_ok) in
      elim (own_status r.error) [ some s ↦ reply s | none ↦ unset ]

  -- The whole response as one object, whatever the request: `into_response`.
  unfoldable pub into_response : RpcResponse Value → Result Response String
  into_response r =
      let object' = object (
        field "id" (or_null r.id)
          (field "error" (error_or_null r.error) (field "result" (or_null r.result) end))) in
      let status : ℕ = elim (own_status r.error) [
        | some s ↦ s
        | none ↦ if is_none r.error then status_ok else internal_server_error
      ] in
      to_vec object' >>= λ body. ok (with_body status body)

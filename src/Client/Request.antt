-- ===== src/Client/Request.antt =====
-- client.rs: how a body becomes requests, and how a request is written again. The parser of
-- serde_json is not modelled: it hands over members and elements in the order in which they stand.
pub mod Laws
use btc_rpc_proxy.Prelude.{
  ℕ, Bool, true, false, not, Option, none, some, List, [], ◌∷◌, ◌++◌, String, Result, ok, err,
  ◌>>=◌, ok_or, map, if◌then◌else◌,
}
use btc_rpc_proxy.Json.{
  Value, Items, nil, cons, Fields, end, field, null, string, array, object, insert,
}
use btc_rpc_proxy.Client.Rpc.{GenericRpcParams, RpcRequest}
use btc_rpc_proxy.Serde.{
  DecodeError, missing_field, invalid_type, Struct, no_fields, with, Values, from_value, write,
  to_list, from_list,
}
use btc_rpc_proxy.Serde.Codecs.{optional_from, required}
use text.Mathlib.Text.{◌==◌}

-- `SingleOrBatchRpcRequest`
pub data SingleOrBatch : Type 0 where
  single : RpcRequest → SingleOrBatch
  batch : List RpcRequest → SingleOrBatch

-- A member of an object. A key is plain if no escape stands in it: only then it can be borrowed.
pub record Member : Type 0 where
  pub key : String
  pub plain : Bool
  pub value : Value

-- The whole body. The elements of a batch are read by the derived code.
pub data Body : Type 0 where
  map_of : List Member → Body
  seq_of : List Value → Body
  other : Body

-- `GenericRpcMethod`, which is its string.
unfoldable pub method_from : Value → Result String DecodeError
method_from (string s) = ok s
method_from _ = err invalid_type

-- The loop of `visit_map`.
unfoldable pub insert_all : Fields → Fields → Fields
insert_all res end = res
insert_all res (field k v rest) = insert_all (insert k v res) rest

-- `GenericRpcParams::deserialize`
unfoldable pub params_from : Value → Result GenericRpcParams DecodeError
params_from (array vs) = ok (GenericRpcParams.array (to_list vs))
params_from (object fs) = ok (GenericRpcParams.object (insert_all end fs))
params_from _ = err invalid_type

abbrev pub value_from : Value → Result Value DecodeError
value_from v = ok v

-- The four variables of the loop over the members of a single request.
pub record Found : Type 0 where
  pub jsonrpc : Option Value
  pub id : Option Value
  pub method : Option String
  pub params : Option GenericRpcParams

unfoldable pub visit_member : Member → Found → Result Found DecodeError
visit_member m p =
    if not m.plain
    then err invalid_type
    else if m.key == "jsonrpc"
    then (optional_from value_from m.value >>= λ v. ok (record p { jsonrpc = v }))
    else if m.key == "id"
    then ok (record p { id = some m.value })
    else if m.key == "method"
    then (optional_from method_from m.value >>= λ v. ok (record p { method = v }))
    else if m.key == "params"
    then (optional_from params_from m.value >>= λ v. ok (record p { params = v }))
    else ok p

unfoldable pub visit_members : List Member → Found → Result Found DecodeError
visit_members [] p = ok p
visit_members (m ∷ ms) p = visit_member m p >>= λ p'. visit_members ms p'

abbrev pub nothing : Found
nothing = record { jsonrpc = none; id = none; method = none; params = none }

unfoldable pub visit_map : List Member → Result SingleOrBatch DecodeError
visit_map ms = do
  p ← visit_members ms nothing
  method ← ok_or p.method (missing_field "method")
  params ← ok_or p.params (missing_field "params")
  ok (single (record { jsonrpc = p.jsonrpc; id = p.id; method = method; params = params }))

-- `present`
abbrev pub present : Value → Result (Option Value) DecodeError
present v = ok (some v)

-- `GenericRpcParams::serialize`
unfoldable pub params_to : GenericRpcParams → Value
params_to (GenericRpcParams.array vs) = array (from_list vs)
params_to (GenericRpcParams.object fs) = object fs

-- The derived code of `RpcRequest`: both first fields may be missing and are skipped if they are.
abbrev pub rpc_request : Struct
rpc_request =
    with "jsonrpc" (Option Value)
      (record { from = optional_from value_from; to = λ o. o; missing = some none })
      (with "id" (Option Value) (record { from = present; to = λ o. o; missing = some none })
        (with "method" String (required method_from string)
          (with "params" GenericRpcParams (required params_from params_to) no_fields)))

abbrev pub request_of : Values rpc_request → RpcRequest
request_of (jsonrpc, (id, (method, (params, _)))) = record {
  jsonrpc = jsonrpc;
  id = id;
  method = method;
  params = params;
}

abbrev pub fields_of : RpcRequest → Values rpc_request
fields_of req = (req.jsonrpc, (req.id, (req.method, (req.params, tt))))

unfoldable pub derived : Value → Result RpcRequest DecodeError
derived v = from_value rpc_request v >>= λ w. ok (request_of w)

unfoldable pub visit_seq : List Value → Result (List RpcRequest) DecodeError
visit_seq [] = ok []
visit_seq (v ∷ vs) = derived v >>= λ req. visit_seq vs >>= λ reqs. ok (req ∷ reqs)

-- `SingleOrBatchRpcRequest::deserialize`
unfoldable pub deserialize : Body → Result SingleOrBatch DecodeError
deserialize (map_of ms) = visit_map ms
deserialize (seq_of es) = visit_seq es >>= λ reqs. ok (batch reqs)
deserialize other = err invalid_type

unfoldable pub request_to : RpcRequest → Fields
request_to req = write rpc_request (fields_of req)

abbrev pub plain_members : Fields → List Member
plain_members end = []
plain_members (field k v fs) = record { key = k; plain = true; value = v } ∷ plain_members fs

-- `SingleOrBatchRpcRequest::serialize`
unfoldable pub serialize : SingleOrBatch → Body
serialize (single req) = map_of (plain_members (request_to req))
serialize (batch reqs) = seq_of (map (λ (r : RpcRequest). object (request_to r)) reqs)

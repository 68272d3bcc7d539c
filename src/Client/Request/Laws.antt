-- ===== src/Client/Request/Laws.antt =====
-- client.rs: a request that is written is read back as it was.
use btc_rpc_proxy.Prelude.{
  ◌≡◌, ◌≢◌, refl, ap, sym, ◌∙◌, false, Option, none, some, List, [], ◌∷◌, String, ok, ◌>>=◌, All,
  map, arith, Bool-cases, inl, inr,
}
use btc_rpc_proxy.Json.{Value, Fields, end, field, null, object, member, insert}
use btc_rpc_proxy.Client.Rpc.{GenericRpcParams, RpcRequest}
use btc_rpc_proxy.Client.Request.{
  SingleOrBatch, single, batch, insert_all, params_from, params_to, value_from, present,
  visit_member, visit_members, visit_map, rpc_request, fields_of, derived, visit_seq, deserialize,
  request_to, plain_members, serialize, method_from,
}
use btc_rpc_proxy.Serde.{from_value, write}
use btc_rpc_proxy.Serde.Codecs.{optional_from, optional_from-some, to_list-from_list}
use btc_rpc_proxy.Serde.Matches.{AreDistinct, Means}
use btc_rpc_proxy.Serde.Written.{AreWritten, read-write}
use text.Mathlib.Text.{◌==◌}
use text.Mathlib.TextEquality.{eq_iff}

-- An object names no key twice.
abbrev pub IsMap : Fields → Type 0
IsMap end = Unit
IsMap (field k v rest) = (member k rest ≡ none) × IsMap rest

abbrev append : Fields → Fields → Fields
append end gs = gs
append (field k v fs) gs = field k v (append fs gs)

-- No key of the second stands in the first.
abbrev Apart : Fields → Fields → Type 0
Apart fs end = Unit
Apart fs (field k v gs) = (member k fs ≡ none) × Apart fs gs

insert-append :
    (k : String) (v : Value) (fs : Fields)
    → member k fs ≡ none
    → insert k v fs ≡ append fs (field k v end)
unfolding insert member
insert-append k v end h = refl
insert-append k v (field j w fs) h = elim (Bool-cases (j == k)) [
  | inl e ↦ absurd (ground arith)
  | inr e ↦ rw (e, insert) (ap (λ l. field j w l) (insert-append k v fs (rw (e, member) at h)))
]

member-append :
    (j k : String) (v : Value) (fs : Fields)
    → member j fs ≡ none
    → (k == j) ≡ false
    → member j (append fs (field k v end)) ≡ none
unfolding member
member-append j k v end h e = rw (e, member) refl
member-append j k v (field i w fs) h e = elim (Bool-cases (i == j)) [
  | inl s ↦ absurd (ground arith)
  | inr s ↦ rw (s, member) (member-append j k v fs (rw (s, member) at h) e)
]

str_eq_sym : (j k : String) → (j == k) ≡ false → (k == j) ≡ false
str_eq_sym j k h = ground (arith, eq_iff j k, eq_iff k j)

Apart-append :
    (k : String) (v : Value) (fs gs : Fields)
    → Apart fs gs
    → member k gs ≡ none
    → Apart (append fs (field k v end)) gs
unfolding member
Apart-append k v fs end a h = tt
Apart-append k v fs (field j w gs) a h = elim (Bool-cases (j == k)) [
  | inl s ↦ absurd (ground arith)
  | inr s ↦ (
    member-append j k v fs a.0 (str_eq_sym j k s),
    Apart-append k v fs gs a.1 (rw (s, member) at h),
  )
]

append_assoc : (fs gs hs : Fields) → append (append fs gs) hs ≡ append fs (append gs hs)
append_assoc end gs hs = refl
append_assoc (field k v fs) gs hs = ap (λ l. field k v l) (append_assoc fs gs hs)

append-end : (fs : Fields) → append fs end ≡ fs
append-end end = refl
append-end (field k v fs) = ap (λ l. field k v l) (append-end fs)

insert_all-append : (fs gs : Fields) → Apart fs gs → IsMap gs → insert_all fs gs ≡ append fs gs
unfolding insert_all
insert_all-append fs end a m = sym (append-end fs)
insert_all-append fs (field k v gs) a m =
    ap (λ l. insert_all l gs) (insert-append k v fs a.0)
    ∙ insert_all-append (append fs (field k v end)) gs (Apart-append k v fs gs a.1 m.0) m.1
    ∙ append_assoc fs (field k v end) gs

Apart-end : (fs : Fields) → Apart end fs
unfolding member
Apart-end end = tt
Apart-end (field k v fs) = (refl, Apart-end fs)

abbrev pub IsParams : GenericRpcParams → Type 0
IsParams (GenericRpcParams.array vs) = Unit
IsParams (GenericRpcParams.object fs) = IsMap fs

params_from-params_to : (p : GenericRpcParams) → IsParams p → params_from (params_to p) ≡ ok p
unfolding params_from params_to
params_from-params_to (GenericRpcParams.array vs) m =
    ap (λ l. ok (GenericRpcParams.array l)) (to_list-from_list vs)
params_from-params_to (GenericRpcParams.object fs) m =
    ap (λ l. ok (GenericRpcParams.object l)) (insert_all-append end fs (Apart-end fs) m)

optional_from-params_to :
    (p : GenericRpcParams) → IsParams p → optional_from params_from (params_to p) ≡ ok (some p)
unfolding params_from params_to
optional_from-params_to (GenericRpcParams.array vs) m =
    ap (λ r. r >>= λ a. ok (some a)) (params_from-params_to (GenericRpcParams.array vs) m)
optional_from-params_to (GenericRpcParams.object fs) m =
    ap (λ r. r >>= λ a. ok (some a)) (params_from-params_to (GenericRpcParams.object fs) m)

-- A version that is written is no `null`, and parameters by name name none twice.
abbrev pub IsVersion : Option Value → Type 0
IsVersion none = Unit
IsVersion (some v) = v ≢ null

abbrev pub IsRequest : RpcRequest → Type 0
IsRequest req = IsVersion req.jsonrpc × IsParams req.params

abbrev made : Option Value → Option Value → String → GenericRpcParams → RpcRequest
made jsonrpc id method params = record {
  jsonrpc = jsonrpc;
  id = id;
  method = method;
  params = params;
}

visit_map-made :
    (jsonrpc id : Option Value) (method : String) (params : GenericRpcParams)
    → IsVersion jsonrpc
    → IsParams params
    → visit_map (plain_members (request_to (made jsonrpc id method params)))
      ≡ ok (single (made jsonrpc id method params))
unfolding visit_map visit_members visit_member request_to method_from write
visit_map-made none none method params v p = rw (optional_from-params_to params p) refl
visit_map-made none (some i) method params v p = rw (optional_from-params_to params p) refl
visit_map-made (some j) none method params v p =
    rw (optional_from-some value_from j v, optional_from-params_to params p) refl
visit_map-made (some j) (some i) method params v p =
    rw (optional_from-some value_from j v, optional_from-params_to params p) refl

rpc_request-AreDistinct : AreDistinct rpc_request
rpc_request-AreDistinct = ((refl, (refl, (refl, tt))), ((refl, (refl, tt)), ((refl, tt), (tt, tt))))

fields_of-AreWritten : (req : RpcRequest) → IsRequest req → AreWritten rpc_request (fields_of req)
unfolding method_from
fields_of-AreWritten req h = (
  version req.jsonrpc h.0,
  (identifier req.id, (refl, (params_from-params_to req.params h.1, tt))),
)
  where
    version :
        (o : Option Value)
        → IsVersion o
        → Means (record { from = optional_from value_from; to = λ o. o; missing = some none }) o o
    version none v = refl
    version (some j) v = optional_from-some value_from j v

    identifier :
        (o : Option Value) → Means (record { from = present; to = λ o. o; missing = some none }) o o
    identifier none = refl
    identifier (some i) = refl

-- A request is read back by the derived code.
pub derived-request_to :
    (req : RpcRequest) → IsRequest req → derived (object (request_to req)) ≡ ok req
unfolding derived request_to from_value
derived-request_to req h =
    rw (read-write rpc_request (fields_of req) rpc_request-AreDistinct (fields_of-AreWritten req h))
      refl

visit_seq-members :
    (reqs : List RpcRequest)
    → All IsRequest reqs
    → visit_seq (map (λ (r : RpcRequest). object (request_to r)) reqs) ≡ ok reqs
unfolding visit_seq
visit_seq-members [] h = refl
visit_seq-members (r ∷ reqs) h = rw (derived-request_to r h.0, visit_seq-members reqs h.1) refl

abbrev pub IsWritten : SingleOrBatch → Type 0
IsWritten (single req) = IsRequest req
IsWritten (batch reqs) = All IsRequest reqs

-- A body that is written of one request or of a batch is read back as it was, ids that are null
-- or missing included, if no version is a null and no object of parameters names a key twice.
pub deserialize-serialize : (r : SingleOrBatch) → IsWritten r → deserialize (serialize r) ≡ ok r
unfolding deserialize serialize
deserialize-serialize (single r) h = visit_map-made r.jsonrpc r.id r.method r.params h.0 h.1
deserialize-serialize (batch reqs) h = rw (visit_seq-members reqs h) refl

-- ===== src/Client/Response/Delivered.antt =====
-- client.rs: what a call of bitcoind gives, from the body that is delivered.
use btc_rpc_proxy.Prelude.{
  ℕ, ◌≤◌, ◌≡◌, ◌≢◌, refl, ◌⊎◌, inl, inr, ◌∙◌, Option, none, some, String, Result, ok, ◌>>=◌,
  map_err,
}
use btc_rpc_proxy.Prelude.Text.{Bytes}
use btc_rpc_proxy.Json.{Value, Fields, null, bool, number, string, array, object, member}
use btc_rpc_proxy.Client.Rpc.{RpcError, RpcRequest, RpcResponse, into_result}
use btc_rpc_proxy.Client.Request.{value_from}
use btc_rpc_proxy.Client.Call.{Transport, ClientError, IsDelivered, call, IsDelivered-call}
use btc_rpc_proxy.Client.Response.{from_slice, error_from, error_to}
use btc_rpc_proxy.Client.Response.Laws.{response_from-Matches_iff}
use btc_rpc_proxy.Serde.{DecodeError}
use btc_rpc_proxy.Serde.Codecs.{optional, optional_from-some}
use btc_rpc_proxy.Serde.Matches.{count, Means}

-- How errors are shown.
pub record Display : Type 0 where
  pub decode_error : DecodeError → String
  pub rpc_error : RpcError → String
  pub client_error : ClientError → String

-- A body that holds this result, and no error.
pub record HasResult (parse : Bytes → Result Value String) (body : Bytes) (v : Value) : Type 0 where
  pub fields : Fields
  pub parsed : parse body ≡ ok (object fields)
  pub id_once : count "id" fields ≤ 1
  pub no_error : (member "error" fields ≡ none) ⊎ (member "error" fields ≡ some null)
  pub error_once : count "error" fields ≤ 1
  pub result : member "result" fields ≡ some v
  pub result_once : count "result" fields ≤ 1

id_lem : (o : Option Value) → (id : Option Value) × Means (optional value_from (λ v. v)) o id
id_lem none = (none, refl)
id_lem (some null) = (none, refl)
id_lem (some (bool b)) = (some (bool b), refl)
id_lem (some (number n)) = (some (number n), refl)
id_lem (some (string s)) = (some (string s), refl)
id_lem (some (array vs)) = (some (array vs), refl)
id_lem (some (object fs)) = (some (object fs), refl)

no_error_lem :
    (o : Option Value) → (o ≡ none) ⊎ (o ≡ some null) → Means (optional error_from error_to) o none
no_error_lem o (inl e) = rw e refl
no_error_lem o (inr e) = rw e refl

-- The type of a result is never written by the calls, so `to` is left open.
module _ {R : Type 0} (from : Value → Result R DecodeError) (to : R → Value) (d : Display) where
  -- `call(..).await?.into_result()?`
  unfoldable pub answer : Result (RpcResponse R) ClientError → Result R String
  answer called = do
    response ← map_err d.client_error called
    map_err d.rpc_error (into_result (map_err d.decode_error (from null)) response)

  -- The transport reads what it receives by the type of the responses.
  abbrev pub Reads : (Bytes → Result Value String) → Transport R → Type 0
  Reads parse t = (body : Bytes) → t.from_slice body ≡ from_slice from to parse d.decode_error body

  read_result :
      (parse : Bytes → Result Value String) (body : Bytes) (v : Value) (r : R)
      → HasResult parse body v
      → v ≢ null
      → from v ≡ ok r
      → (id : Option Value) × (from_slice from to parse d.decode_error body
          ≡ ok (record { id = id; error = none; result = some r }))
  unfolding from_slice
  read_result parse body v r l n m =
      let (id, i) = id_lem (member "id" l.fields) in
      let error = no_error_lem (member "error" l.fields) l.no_error in
      let result : Means (optional from to) (member "result" l.fields) (some r) =
        rw l.result (optional_from-some from v n ∙ rw m refl) in
      let read =
        (response_from-Matches_iff from to l.fields
            (record { id = id; error = none; result = some r })).1
          (i, l.id_once, (error, l.error_once, (result, l.result_once, tt))) in
      (id, rw (l.parsed, read, from_slice) refl)

  -- The result that is delivered is the answer.
  pub answer-HasResult :
      (parse : Bytes → Result Value String) (t : Transport R) (req : RpcRequest) (status : ℕ)
      (body : Bytes) (v : Value) (r : R)
      → Reads parse t
      → IsDelivered t req status body
      → HasResult parse body v
      → v ≢ null
      → from v ≡ ok r
      → answer (call t req) ≡ ok r
  unfolding answer into_result
  answer-HasResult parse t req status body v r reads s l n m =
      let (id, read) = read_result parse body v r l n m in
      rw (IsDelivered-call t req status body s, reads body, read, answer) refl

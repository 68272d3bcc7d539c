-- ===== src/Client/Batch.antt =====
-- client.rs: the batch arm of `RpcClient::send`. Its calls finish in any order; a list of numbered
-- calls in that order is an argument.
pub mod Order
pub mod Errors
use btc_rpc_proxy.Prelude.{
  ℕ, ◌≡◌, refl, Bool, true, false, not, ◌&&◌, Option, none, some, List, [], ◌∷◌, map, String,
  if◌then◌else◌, Result, ok, err, ◌>>=◌, map_err, ◌==◌,
}
use btc_rpc_proxy.Prelude.Keyed.{sort_by_key}
use btc_rpc_proxy.Json.{Value}
use mathlib.Core.List.{filter_map}
use btc_rpc_proxy.Client.Rpc.{
  RpcRequest, RpcResponse, RpcError, is_v2, is_notification, misc_error_code, from_error,
  from_json_error, from_rpc_error,
}
use btc_rpc_proxy.Client.Reply.{
  Bytes, Response, into_reply, into_response, with_body, empty_body, status_ok, no_content,
  internal_server_error,
}
use btc_rpc_proxy.Client.Merge.{Itertools, merge}

-- A request of the batch, with what `intercept` answered for it.
pub record Call : Type 0 where
  pub req : RpcRequest
  pub outcome : Result (Option (RpcResponse Value)) RpcError

-- What bitcoind answered: the status, and the body or why it could not be read.
pub record HttpAnswer : Type 0 where
  pub status : ℕ
  pub body : Result Bytes String

-- The calls of `send_batch` that leave the repository, each with its error's message.
pub record Upstream : Type 0 where
  pub parse_path : Result (Unit {0}) String
  pub try_load : Result Bytes String
  pub from_parts : Result (Unit {0}) String
  pub to_string : List RpcRequest → Result Bytes String
  pub request : Bytes → Bytes → Result HttpAnswer String
  pub from_slice : Bytes → Result (List Value) String

reply_or_skip : ℕ → RpcRequest → RpcResponse Value → Option (Result (ℕ × Value) RpcError)
reply_or_skip idx req res =
    if is_notification req then none else some (ok (idx, into_reply res req))

-- What one finished call puts on the channel of intercepted replies.
unfoldable pub intercepted_send : ℕ × Call → Option (Result (ℕ × Value) RpcError)
unfolding reply_or_skip
intercepted_send (idx, call) = elim call.outcome [
  | ok none ↦ none
  | ok (some res) ↦ reply_or_skip idx call.req res
  | err e ↦ some (err e)
]

-- What it puts on the channel of requests to forward.
unfoldable pub forwarded_send : ℕ × Call → Option (ℕ × RpcRequest)
forwarded_send (idx, call) = elim call.outcome [
  | ok none ↦ some (idx, call.req)
  | ok (some res) ↦ none
  | err e ↦ none
]

-- `try_collect`
unfoldable pub try_collect : {A : Type 0} → List (Result A RpcError) → Result (List A) RpcError
try_collect [] = ok []
try_collect (r ∷ rs) = let rest = try_collect rs in do a ← r; as' ← rest; ok (a ∷ as')

-- `zip`, which stops with the shorter list.
unfoldable pub zip : {A B : Type 0} → List A → List B → List (A × B)
zip (a ∷ as') (b ∷ bs) = (a, b) ∷ zip as' bs
zip _ _ = []

-- The number of a request that bitcoind answers.
unfoldable pub answered : ℕ × RpcRequest → Option ℕ
answered (idx, req) = if is_notification req then none else some idx

-- The reply to a cookie that cannot be loaded hides why.
abbrev pub hidden_error : RpcError
hidden_error = record {
  code = misc_error_code;
  message = "internal server error";
  status = some internal_server_error;
}

-- `is_empty`
abbrev pub is_empty : {A : Type 0} → List A → Bool
is_empty [] = true
is_empty (a ∷ as') = false

module _ (up : Upstream) where
  replies : HttpAnswer → Result (List Value) RpcError
  replies answer =
      if answer.status == no_content
      then ok []
      else (map_err from_error answer.body >>= λ body. map_err from_json_error (up.from_slice body))

  -- From the requests that are forwarded to the replies that bitcoind sends for them.
  unfoldable pub exchange : List RpcRequest → Result (List Value) RpcError
  unfolding replies
  exchange new_batch = do
    path ← map_err from_error up.parse_path
    authorization ← map_err (λ e. hidden_error) up.try_load
    uri ← map_err from_error up.from_parts
    body ← map_err from_json_error (up.to_string new_batch)
    answer ← map_err from_error (up.request authorization body)
    replies answer

  unfoldable pub send_batch : List (ℕ × RpcRequest) → Result (List (ℕ × Value)) RpcError
  send_batch forwarded = do
    forwarded_res ← exchange (map (λ x. x.1) forwarded)
    ok (zip (filter_map answered forwarded) forwarded_res)

-- `try_join!`: of two errors, the one that is met first. `send_first` says whether `send_batch`
-- had failed by the time that the other side was polled.
unfoldable pub try_join :
    {A B : Type 0} → Bool → Result A RpcError → Result B RpcError → Result (A × B) RpcError
try_join send_first (ok a) (ok b) = ok (a, b)
try_join send_first (ok a) (err e) = err e
try_join send_first (err e) (ok b) = err e
try_join send_first (err e) (err e') = err (if send_first then e else e')

module _ (it : Itertools (ℕ × Value)) (up : Upstream) where
  -- `res_vec`, in the order of the requests.
  unfoldable pub collect : Bool → List (ℕ × Call) → Result (List Value) RpcError
  collect send_first finished = do
    (forwarded, intercepted) ←
        try_join send_first (send_batch up (filter_map forwarded_send finished))
          (try_collect (filter_map intercepted_send finished))
    ok (map (λ x. x.1) (merge it (sort_by_key forwarded) (sort_by_key intercepted)))

  -- `to_vec` serializes one value, `to_vec_all` a list of them.
  module _ (to_vec : Value → Result Bytes String)
      (to_vec_all : List Value → Result Bytes String) where
    unfoldable pub batch_response : {A : Type 0} → List A → List Value → Result Response String
    batch_response reqs res_vec =
        if is_empty res_vec && not (is_empty reqs)
        then ok (empty_body no_content)
        else (to_vec_all res_vec >>= λ body. ok (with_body status_ok body))

    -- The response to the batch `reqs`, whose calls finished as `finished` says; of `reqs` only
    -- whether it is empty is read.
    unfoldable pub send_all :
        {A : Type 0} → List A → Bool → List (ℕ × Call) → Result Response String
    unfolding batch_response
    send_all reqs send_first finished = elim (collect send_first finished) [
      | ok res_vec ↦ batch_response reqs res_vec
      | err e ↦ into_response to_vec (from_rpc_error e)
    ]

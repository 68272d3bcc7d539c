-- ===== src/Client/Batch/Errors.antt =====
-- A batch with a refused call, and the HTTP response of a batch.
use btc_rpc_proxy.Prelude.{
  ℕ, ◌≡◌, Bool, not, ◌&&◌, Option, List, [], ◌∷◌, map, if◌then◌else◌, Result, ok, err, arith,
  Bool-cases, Option-cases, Result-cases, inl, inr, String, ◌⊎◌, All,
}
use btc_rpc_proxy.Json.{Value}
use btc_rpc_proxy.Client.Rpc.{RpcRequest, RpcResponse, RpcError, from_rpc_error}
use btc_rpc_proxy.Client.Reply.{Bytes, into_response, empty_body, with_body, no_content, status_ok}
use btc_rpc_proxy.Client.Merge.{Itertools}
use btc_rpc_proxy.Client.Batch.{
  Call, Upstream, intercepted_send, forwarded_send, try_collect, send_batch, try_join, exchange,
  collect, send_all, is_empty,
}
use btc_rpc_proxy.Client.Batch.Order.{IsServed, answer_to, reply_to, collect-reply_to}
use btc_rpc_proxy.Prelude.Keyed.{enumerate}
use mathlib.Core.List.{filter_map, Perm}

-- `e` is the error that some finished call was refused with.
abbrev pub FromCall : RpcError → List (ℕ × Call) → Type 0
FromCall e [] = ⊥
FromCall e (x ∷ fin) = (x.1.outcome ≡ err e) ⊎ FromCall e fin

try_collect-refused :
    (e : RpcError) (fin : List (ℕ × Call))
    → FromCall e fin
    → (e' : RpcError) × (try_collect (filter_map intercepted_send fin) ≡ err e') × FromCall e' fin
unfolding try_collect filter_map intercepted_send
try_collect-refused e [] h = elim h [ ]
try_collect-refused e ((idx, c) ∷ fin) h = elim (Result-cases c.outcome) [
  | inr (e', k) ↦ (e', rw k, inl k)
  | inl (r, k) ↦
      let (e', collected, from) = try_collect-refused e fin (later h k) in
      elim (Option-cases r) [
        | inl n ↦ (e', rw (k, n) collected, inr from)
        | inr (res, n) ↦ (e', ground (arith, k, n, collected), inr from)
      ]
]
  where
    later :
        {r : Option (RpcResponse Value)}
        → (c.outcome ≡ err e) ⊎ FromCall e fin
        → c.outcome ≡ ok r
        → FromCall e fin
    later (inl a) k = absurd (cc)
    later (inr a) k = a

module _ (it : Itertools (ℕ × Value)) (up : Upstream) where
  -- A batch that holds a refused call gets no replies: what comes out is the error of a refused
  -- call of the batch, or that of the exchange with bitcoind.
  pub collect-refused :
      (e : RpcError) (send_first : Bool) (fin : List (ℕ × Call))
      → FromCall e fin
      → (e' : RpcError) × (collect it up send_first fin ≡ err e')
        × (FromCall e' fin ⊎ (send_batch up (filter_map forwarded_send fin) ≡ err e'))
  unfolding collect try_join
  collect-refused e send_first fin h =
      let (e₁, collected, from) = try_collect-refused e fin h in
      elim (Result-cases (send_batch up (filter_map forwarded_send fin))) [
        | inl (sent, k) ↦ (e₁, rw (k, collected), inl from)
        | inr (e₂, k) ↦ elim (Bool-cases send_first) [
          | inl b ↦ (e₂, rw (k, collected, b), inr k)
          | inr b ↦ (e₁, rw (k, collected, b), inl from)
        ]
      ]

  module _ (to_vec : Value → Result Bytes String)
      (to_vec_all : List Value → Result Bytes String) where
    -- The response to a batch that holds a refused call is that of one error, which is that of a
    -- refused call or that of the exchange with bitcoind.
    pub send_all-refused :
        {A : Type 0} (e : RpcError) (reqs : List A) (send_first : Bool) (fin : List (ℕ × Call))
        → FromCall e fin
        → (e' : RpcError) × (send_all it up to_vec to_vec_all reqs send_first fin
            ≡ into_response to_vec (from_rpc_error e'))
          × (FromCall e' fin ⊎ (send_batch up (filter_map forwarded_send fin) ≡ err e'))
    unfolding send_all
    send_all-refused e reqs send_first fin h =
        let (e', collected, from) = collect-refused e send_first fin h in
        (e', rw (collected, send_all), from)

    module _ (answer : RpcRequest → Value) where
      -- The response to a batch none of whose calls is refused, whatever the order in which the
      -- calls finish, if bitcoind answers in the order it was sent the requests and answers no
      -- notification: the replies in the order of the requests, or no content where a batch has
      -- calls and none of them is answered.
      pub send_all-reply_to :
          (send_first : Bool) (calls : List Call) (fin : List (ℕ × Call)) (body : Bytes)
          → Perm fin (enumerate calls)
          → All (λ x. IsServed x.1) fin
          → exchange up (map (λ x. x.1) (filter_map forwarded_send fin))
            ≡ ok (filter_map (answer_to answer) (map (λ x. x.1) (filter_map forwarded_send fin)))
          → to_vec_all (filter_map (reply_to answer) calls) ≡ ok body
          → send_all it up to_vec to_vec_all calls send_first fin
            ≡ ok (
                if is_empty (filter_map (reply_to answer) calls) && not (is_empty calls)
                then empty_body no_content
                else with_body status_ok body)
      unfolding send_all
      send_all-reply_to send_first calls fin body p served sent written =
          rw (collect-reply_to answer it up send_first calls fin p served sent, send_all)
            (elim (Bool-cases
              (is_empty (filter_map (reply_to answer) calls) && not (is_empty calls))) [
                | inl none_answered ↦ rw none_answered
                | inr some_answered ↦ rw (some_answered, written)
              ])

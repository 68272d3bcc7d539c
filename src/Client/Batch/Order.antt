-- ===== src/Client/Batch/Order.antt =====
-- The replies to a batch stand in the order of its requests, however its calls finish.
use btc_rpc_proxy.Prelude.{
  ℕ, ◌≡◌, refl, ◌∙◌, ap, Bool, Option, none, some, List, [], ◌∷◌, ◌++◌, map, if◌then◌else◌, ok, err,
  All, arith, Option-cases, Result-cases, inl, inr,
}
use btc_rpc_proxy.Prelude.Keyed.{
  enumerate, sort_by_key, keyed, IsSorted, Differ, sort-perm, sort-IsSorted, IsSorted-eq_of_perm,
  enumerate-IsSorted, filter_map-IsSorted, filter_map-enumerate, Divides, filter_map_divide-perm,
  IsSorted-Differ, Differ-perm,
}
use btc_rpc_proxy.Json.{Value, Value-set}
use btc_rpc_proxy.Client.Rpc.{RpcRequest, RpcResponse, is_notification}
use btc_rpc_proxy.Client.Reply.{into_reply}
use btc_rpc_proxy.Client.Merge.{Itertools, merge, merge-perm, merge-IsSorted}
use btc_rpc_proxy.Client.Batch.{
  Call, Upstream, intercepted_send, forwarded_send, try_collect, zip, answered, exchange,
  send_batch, try_join, collect,
}
use mathlib.Core.List.{Perm, filter_map, Pairwise-append}
use mathlib.Core.HLevel.{¬_prop}
use mathlib.Core.List.Perm

-- The call was not refused: `intercept` returned no error for it.
abbrev pub IsServed : Call → Type 0
IsServed c = (r : Option (RpcResponse Value)) × (c.outcome ≡ ok r)

-- bitcoind's answer to one request of a batch, if it sends one.
unfoldable pub answer_to : (RpcRequest → Value) → RpcRequest → Option Value
answer_to answer req = if is_notification req then none else some (answer req)

intercepted_reply : ℕ × Call → Option Value
intercepted_reply (idx, c) = elim c.outcome [
  | ok none ↦ none
  | ok (some res) ↦ if is_notification c.req then none else some (into_reply res c.req)
  | err e ↦ none
]

forwarded_reply : (RpcRequest → Value) → ℕ × Call → Option Value
unfolding answer_to
forwarded_reply answer (idx, c) = elim c.outcome [
  | ok none ↦ answer_to answer c.req
  | ok (some res) ↦ none
  | err e ↦ none
]

-- The reply that a request should get: the proxy's own, or bitcoind's; a notification gets none.
unfoldable pub reply_to : (RpcRequest → Value) → Call → Option Value
reply_to answer c = elim c.outcome [
  | ok none ↦ if is_notification c.req then none else some (answer c.req)
  | ok (some res) ↦ if is_notification c.req then none else some (into_reply res c.req)
  | err e ↦ none
]

try_collect-eq :
    (fin : List (ℕ × Call))
    → All (λ x. IsServed x.1) fin
    → try_collect (filter_map intercepted_send fin) ≡ ok (filter_map (keyed intercepted_reply) fin)
unfolding try_collect filter_map intercepted_send intercepted_reply
try_collect-eq [] h = refl
try_collect-eq ((idx, c) ∷ fin) h = ground (arith, h.0.1, try_collect-eq fin h.1)

module _ (answer : RpcRequest → Value) where
  zip-eq :
      (fin : List (ℕ × Call))
      → zip
          (filter_map answered (filter_map forwarded_send fin))
          (filter_map (answer_to answer) (map (λ x. x.1) (filter_map forwarded_send fin)))
        ≡ filter_map (keyed (forwarded_reply answer)) fin
  unfolding zip filter_map answered forwarded_send forwarded_reply
  zip-eq [] = refl
  zip-eq ((idx, c) ∷ fin) = ground (arith, zip-eq fin)

  divides :
      (x : ℕ × Call)
      → Divides (forwarded_reply answer) intercepted_reply (λ x. reply_to answer x.1) x
  unfolding forwarded_reply intercepted_reply reply_to
  divides (idx, c) = elim (Result-cases c.outcome) [
    | inr (e, h) ↦ inl (rw h, rw h)
    | inl (r, h) ↦ elim (Option-cases r) [
      | inl k ↦ inl (rw (h, k), rw (h, k))
      | inr (res, k) ↦ inr (rw (h, k), rw (h, k))
    ]
  ]

  -- Both channels together hold the replies, numbered.
  both-perm :
      (calls : List Call) (fin : List (ℕ × Call))
      → Perm fin (enumerate calls)
      → Perm
          (filter_map (keyed (forwarded_reply answer)) fin
            ++ filter_map (keyed intercepted_reply) fin)
          (filter_map (keyed (λ x. reply_to answer x.1)) (enumerate calls))
  both-perm calls fin p =
      Perm.trans
        (filter_map_divide-perm (forwarded_reply answer) intercepted_reply
          (λ x. reply_to answer x.1) divides fin)
        (Perm.filter_map (keyed (λ x. reply_to answer x.1)) p)

  module _ (it : Itertools (ℕ × Value)) where
    -- Two lists that hold what `want` holds, sorted and merged, are `want`.
    merge_sorted-eq :
        (fs is want : List (ℕ × Value))
        → IsSorted want
        → Perm (fs ++ is) want
        → merge it (sort_by_key fs) (sort_by_key is) ≡ want
    merge_sorted-eq fs is want s p =
        let (df, di, apart) =
          (Pairwise-append {R = Differ} (λ x y. ¬_prop) {l₁ = fs} {l₂ = is}).0
            (Differ-perm (Perm.symm p) (IsSorted-Differ want s)) in
        IsSorted-eq_of_perm Value-set _ want
          (merge-IsSorted it (sort_by_key fs) (sort_by_key is)
            (λ a m b k.
              apart a ((Perm.mem_iff (sort-perm fs)).0 m) b ((Perm.mem_iff (sort-perm is)).0 k))
            (sort-IsSorted fs df) (sort-IsSorted is di))
          s
          (Perm.trans (merge-perm it (sort_by_key fs) (sort_by_key is))
            (Perm.trans (Perm.append (sort-perm fs) (sort-perm is)) p))

    -- If no call is refused and bitcoind answers the forwarded requests in their order, then the
    -- replies stand in the order of the requests, whatever order the calls finish in.
    pub collect-reply_to :
        (up : Upstream) (send_first : Bool) (calls : List Call) (fin : List (ℕ × Call))
        → Perm fin (enumerate calls)
        → All (λ x. IsServed x.1) fin
        → exchange up (map (λ x. x.1) (filter_map forwarded_send fin))
          ≡ ok (filter_map (answer_to answer) (map (λ x. x.1) (filter_map forwarded_send fin)))
        → collect it up send_first fin ≡ ok (filter_map (reply_to answer) calls)
    unfolding collect send_batch try_join
    collect-reply_to up send_first calls fin p served sent =
        rw (sent, try_collect-eq fin served, zip-eq fin)
          (ap ok (
            ap (map (λ x. x.1)) (
              merge_sorted-eq _ _ _
                (filter_map-IsSorted (λ x. reply_to answer x.1) (enumerate calls)
                  (enumerate-IsSorted calls))
                (both-perm calls fin p))
            ∙ filter_map-enumerate (reply_to answer) calls))

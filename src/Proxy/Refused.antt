-- ===== src/Proxy/Refused.antt =====
-- proxy.rs: what becomes of a batch with a call that its user may not make.
use btc_rpc_proxy.Prelude.{
  ℕ, ◌≡◌, refl, sym, ap, subst, ◌⊎◌, inl, inr, ◌∙◌, false, List, [], ◌∷◌, String, Result, ok, err,
  ◌>>=◌, map_err, map_err-ok, bind-ok, ok_inj,
}
use btc_rpc_proxy.Cache.{BlockCache}
use btc_rpc_proxy.Client.Rpc.{RpcRequest, RpcError, from_rpc_error}
use btc_rpc_proxy.Client.Reply.{Response, into_response}
use btc_rpc_proxy.Client.Request.{batch}
use btc_rpc_proxy.Client.Request.Laws.{IsWritten}
use btc_rpc_proxy.Client.Batch.{Call}
use btc_rpc_proxy.Client.Batch.Errors.{FromCall, send_all-refused}
use btc_rpc_proxy.Fetch.Block.{BlockHash}
use btc_rpc_proxy.Users.Login.{User, Users}
use btc_rpc_proxy.Users.Intercept.Dispatch.{is_allowed, not_allowed}
use btc_rpc_proxy.Users.Intercept.RawTransaction.{Answered}
use btc_rpc_proxy.Users.Intercept.Laws.{intercept_idle}
use btc_rpc_proxy.Proxy.{
  Request, State, Services, World, Run, in_params, unwrap_or, answer, answer_all, send,
  proxy_request,
}
use btc_rpc_proxy.Proxy.Written.{IsPosted, proxy_request-IsPosted}

-- One of the calls is of a method that the user may not call.
abbrev pub IsDenied : {R : Type 0} → User → List (ℕ × RpcRequest × World R) → Type 0
IsDenied u [] = ⊥
IsDenied u (x ∷ rest) = (is_allowed u x.1.method ≡ false) ⊎ IsDenied u rest

abbrev Finished : Type 0
Finished = BlockCache BlockHash × List (ℕ × Call)

abbrev joined : ℕ → RpcRequest → Answered → Finished → Finished
joined idx req one others = (others.0, (idx, record { req = req; outcome = one.1 }) ∷ others.1)

module _ (sv : Services) {R : Type 0} where
  -- The first of the calls that finish, and the others.
  answer_all-cons :
      (u : User) (idx : ℕ) (req : RpcRequest) (w : World R) (rest : List (ℕ × RpcRequest × World R))
      (cache : BlockCache BlockHash) (end : Finished)
      → answer_all sv u ((idx, req, w) ∷ rest) cache ≡ ok end
      → (one : Answered) × (others : Finished) × (answer sv u w req cache ≡ ok one)
        × (answer_all sv u rest one.0 ≡ ok others)
        × (joined idx req one others ≡ end)
  unfolding answer_all
  answer_all-cons u idx req w rest cache end h =
      let (one, first, h') =
        bind-ok (answer sv u w req cache)
          (λ (x : Answered). answer_all sv u rest x.0 >>= λ (y : Finished). ok (joined idx req x y))
          end h in
      let (others, later, h'') =
        bind-ok (answer_all sv u rest one.0) (λ (y : Finished). ok (joined idx req one y)) end h' in
      (one, others, first, later, ok_inj h'')

  answer_all-IsDenied :
      (u : User) (finishing : List (ℕ × RpcRequest × World R)) (cache : BlockCache BlockHash)
      (end : BlockCache BlockHash × List (ℕ × Call))
      → IsDenied u finishing
      → answer_all sv u finishing cache ≡ ok end
      → FromCall not_allowed end.1
  unfolding answer
  answer_all-IsDenied u [] cache end d h = elim d [ ]
  answer_all-IsDenied u ((idx, req, w) ∷ rest) cache end (inl a) h =
      let (one, others, first, later, same) = answer_all-cons u idx req w rest cache end h in
      let refused : one.1 ≡ err not_allowed =
        ap (λ (z : Answered). z.1)
          (ok_inj (
            sym first
            ∙ intercept_idle sv.bc sv.formats w.calls w.outside w.meanwhile u req cache (inr a)))
        ∙ rw a refl in
      subst (λ (z : Finished). FromCall not_allowed z.1) same (inl refused)
  answer_all-IsDenied u ((idx, req, w) ∷ rest) cache end (inr d) h =
      let (one, others, first, later, same) = answer_all-cons u idx req w rest cache end h in
      subst (λ (z : Finished). FromCall not_allowed z.1) same
        (inr (answer_all-IsDenied u rest one.0 others d later))

  -- A POST of a batch, as a client writes it, in which one of the calls that finish is of a
  -- method that the user may not call, is answered, if it ends without a panic, by the response
  -- of one error for the whole batch.
  pub proxy_request-IsDenied :
      (run : Run R) (request : Request) (s : State) (users : Users) (u : User)
      (reqs : List RpcRequest) (end : State × Result Response String)
      → IsWritten (batch reqs)
      → IsPosted sv run request s users u (batch reqs)
      → IsDenied u (run.finishing reqs)
      → proxy_request sv run request s ≡ ok end
      → (e : RpcError) × (end.1 ≡ into_response sv.to_vec (from_rpc_error e))
  unfolding send
  proxy_request-IsDenied run request s users u reqs end w p d h =
      let (served, sent, h') =
        bind-ok
          (map_err in_params
            (send sv run u (unwrap_or u.override_wallet request.path) (batch reqs) s.block_cache))
          _ end (sym (proxy_request-IsPosted sv run request s users u (batch reqs) w p) ∙ h) in
      let (all, answered, h'') =
        bind-ok (answer_all sv u (run.finishing reqs) s.block_cache) _ served
          (map_err-ok _ _ served sent) in
      let (e, single_error, _) =
        send_all-refused sv.itertools (sv.upstream (unwrap_or u.override_wallet request.path))
          sv.to_vec sv.to_vec_all not_allowed reqs run.send_first all.1
          (answer_all-IsDenied u (run.finishing reqs) s.block_cache all d answered) in
      (
        e,
        ap (λ (z : State × Result Response String). z.1) (sym (ok_inj h'))
            ∙ ap (λ (z : BlockCache BlockHash × Result Response String). z.1) (sym (ok_inj h''))
            ∙ single_error,
      )

-- ===== src/Proxy/Whole.antt =====
-- proxy.rs: what a whole HTTP request does to the block cache.
use btc_rpc_proxy.Prelude.{
  ℕ, ◌≡◌, inl, inr, subst, ap, Option, none, some, List, [], ◌∷◌, Result, ok, map_err, ok_inj,
  bind-ok, map_err-ok, Bool-cases, Result-cases, All, String,
}
use btc_rpc_proxy.Prelude.Text.{Bytes, codes, bytes_eq}
use btc_rpc_proxy.Cache.{BlockCache}
use btc_rpc_proxy.Client.Rpc.{RpcRequest}
use btc_rpc_proxy.Client.Reply.{Response}
use btc_rpc_proxy.Client.Batch.{Call}
use btc_rpc_proxy.Fetch.Block.{BlockHash}
use btc_rpc_proxy.Users.Login.{User, Users}
use btc_rpc_proxy.Client.Request.{SingleOrBatch, single, batch}
use btc_rpc_proxy.Proxy.{
  Request, State, Services, World, Run, from_slice, in_password, is_served, login, answer,
  answer_all, send, serve, enter, post, proxy_request,
}
use btc_rpc_proxy.Proxy.Reach.{IsReached, IsQuiet, intercept-Reach}

module _ (sv : Services) {R : Type 0} (max : ℕ) where
  at_end :
      {A : Type 0} {x y : BlockCache BlockHash × A}
      → x ≡ y
      → IsReached sv.bc R max x.0
      → IsReached sv.bc R max y.0
  at_end {A = A} e r =
      subst (IsReached sv.bc R max) (ap (λ (z : BlockCache BlockHash × A). z.0) e) r

  at_state :
      {A : Type 0} {x y : State × A}
      → x ≡ y
      → IsReached sv.bc R max x.0.block_cache
      → IsReached sv.bc R max y.0.block_cache
  at_state {A = A} e r =
      subst (λ (z : State). IsReached sv.bc R max z.block_cache) (ap (λ (z : State × A). z.0) e) r

  -- All that runs beside the interceptions of a request is other requests.
  pub record IsQuietRun (run : Run R) : Type 0 where
    pub of_single : IsQuiet sv.bc R max run.world.meanwhile
    pub of_batch :
        (reqs : List RpcRequest)
        → All
            (λ (x : ℕ × RpcRequest × World R). IsQuiet sv.bc R max x.2.meanwhile)
            (run.finishing reqs)

  answer_all-Reach :
      (u : User) (finishing : List (ℕ × RpcRequest × World R)) (cache : BlockCache BlockHash)
      (end : BlockCache BlockHash × List (ℕ × Call))
      → All (λ (x : ℕ × RpcRequest × World R). IsQuiet sv.bc R max x.2.meanwhile) finishing
      → IsReached sv.bc R max cache
      → answer_all sv u finishing cache ≡ ok end
      → IsReached sv.bc R max end.0
  unfolding answer_all answer
  answer_all-Reach u [] cache end q r h = at_end (ok_inj h) r
  answer_all-Reach u ((idx, req, w) ∷ rest) cache end q r h =
      let (one, first, h') = bind-ok _ _ end h in
      let (others, later, h'') = bind-ok _ _ end h' in
      at_end (ok_inj h'') (
        answer_all-Reach u rest one.0 others q.1
          (intercept-Reach sv.bc w.outside w.meanwhile max q.0 sv.formats w.calls u req cache one r
            first)
          later)

  module _ (run : Run R) (quiet : IsQuietRun run) where
    send-Reach :
        (u : User) (path : Bytes) (req : SingleOrBatch) (cache : BlockCache BlockHash)
        (end : BlockCache BlockHash × Result Response String)
        → IsReached sv.bc R max cache
        → send sv run u path req cache ≡ ok end
        → IsReached sv.bc R max end.0
    unfolding send answer
    send-Reach u path (single req) cache end r h =
        let (one, first, h') = bind-ok _ _ end h in
        let w = run.world in
        at_end (ok_inj h') (
          intercept-Reach sv.bc w.outside w.meanwhile max quiet.of_single sv.formats w.calls u req
            cache one r first)
    send-Reach u path (batch reqs) cache end r h =
        let (all, first, h') = bind-ok _ _ end h in
        at_end (ok_inj h')
          (answer_all-Reach u (run.finishing reqs) cache all (quiet.of_batch reqs) r first)

    serve-Reach :
        (request : Request) (u : User) (cache : BlockCache BlockHash)
        (end : BlockCache BlockHash × Result Response String)
        → IsReached sv.bc R max cache
        → serve sv run request u cache ≡ ok end
        → IsReached sv.bc R max end.0
    unfolding serve
    serve-Reach request u cache end r h = elim (Result-cases request.body) [
      | inr (e, b) ↦ at_end (ok_inj (rw (b, serve) at h)) r
      | inl (body, b) ↦ elim (Result-cases (from_slice sv body)) [
        | inr (e, p) ↦ at_end (ok_inj (rw (b, p, serve) at h)) r
        | inl (req, p) ↦ send-Reach u _ req cache end r (rw (b, p, serve) at h)
      ]
    ]

    enter-Reach :
        (request : Request) (cache : BlockCache BlockHash) (entered : Users × Option (Bytes × User))
        (end : State × Result Response String)
        → IsReached sv.bc R max cache
        → enter sv run request cache entered ≡ ok end
        → IsReached sv.bc R max end.0.block_cache
    unfolding enter
    enter-Reach request cache (users, none) end r h = at_state (ok_inj h) r
    enter-Reach request cache (users, some (name, u)) end r h =
        let (served, second, h') = bind-ok _ _ end h in
        at_state (ok_inj h') (serve-Reach request u cache served r (map_err-ok _ _ served second))

    post-Reach :
        (request : Request) (s : State) (end : State × Result Response String)
        → IsReached sv.bc R max s.block_cache
        → post sv run request s ≡ ok end
        → IsReached sv.bc R max end.0.block_cache
    unfolding post
    post-Reach request s end r h =
        let (entered, first, h') =
          bind-ok (map_err in_password (login sv run request s.users))
            (enter sv run request s.block_cache) end h in
        enter-Reach request s.block_cache entered end r h'

    -- A request, single or batch, that ends leads from a cache that lookups and fetches can
    -- reach to another such cache, if what runs beside it does.
    pub proxy_request-Reach :
        (request : Request) (s : State) (end : State × Result Response String)
        → IsReached sv.bc R max s.block_cache
        → proxy_request sv run request s ≡ ok end
        → IsReached sv.bc R max end.0.block_cache
    unfolding proxy_request
    proxy_request-Reach request s end r h = elim (Bool-cases (is_served request.path)) [
      | inr p ↦ at_state (ok_inj (rw (p, proxy_request) at h)) r
      | inl p ↦ elim (Bool-cases (bytes_eq request.method (codes "POST"))) [
        | inr m ↦ at_state (ok_inj (rw (p, m, proxy_request) at h)) r
        | inl m ↦ post-Reach request s end r (rw (p, m, proxy_request) at h)
      ]
    ]

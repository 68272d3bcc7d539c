-- ===== src/Service/Laws.antt =====
-- lib.rs, main.rs: what holds of the block cache for as long as the service runs.
use btc_rpc_proxy.Prelude.{
  ℕ, ◌+◌, ◌*◌, ◌<◌, ◌≡◌, refl, sym, subst, ap, ◌∙◌, some, List, [], ◌∷◌, String, Result, ok,
  map_err, All, length, suc, bind-ok, map_err-ok, ok_inj, arith,
}
use btc_rpc_proxy.Prelude.Text.{Bytes}
use btc_rpc_proxy.Cache.{usize_mod, new}
use btc_rpc_proxy.Cache.Laws.{IsValid}
use btc_rpc_proxy.Cache.Members.{held}
use btc_rpc_proxy.Client.Reply.{Response}
use btc_rpc_proxy.Fetch.Block.{BlockHash}
use btc_rpc_proxy.Fetch.Raw.{hash_eq}
use btc_rpc_proxy.Fetch.Raw.Reach.{IsChecked, here, Reach-IsChecked, Reach-IsValid}
use btc_rpc_proxy.Proxy.{Request, State, Services, Run, proxy_request}
use btc_rpc_proxy.Proxy.Reach.{IsReached}
use btc_rpc_proxy.Proxy.Whole.{IsQuietRun, proxy_request-Reach}
use btc_rpc_proxy.Start.Bind.{SocketAddr}
use btc_rpc_proxy.Start.Create.{Config, Crates, Started, create_state}
use btc_rpc_proxy.Start.Ready.{IsReady, create_state-IsReady}
use btc_rpc_proxy.Service.{cannot_start, cannot_listen, panicked, serve_all, serve, main}

module _ (sv : Services) {R : Type 0} where
  -- All that runs beside the requests is other requests.
  abbrev pub AreQuiet : ℕ → List (Run R × Request) → Type 0
  AreQuiet max requests = All (λ (x : Run R × Request). IsQuietRun sv max x.0) requests

  serve_all-Reach :
      (max : ℕ) (requests : List (Run R × Request)) (s : State)
      (end : State × List (Result Response String))
      → AreQuiet max requests
      → IsReached sv.bc R max s.block_cache
      → serve_all sv requests s ≡ ok end
      → IsReached sv.bc R max end.0.block_cache × (length end.1 ≡ length requests)
  unfolding serve_all
  serve_all-Reach max [] s end q r h =
      subst
        (λ (x : State × List (Result Response String)).
          IsReached sv.bc R max x.0.block_cache × (length x.1 ≡ 0))
        (ok_inj h) (r, refl)
  serve_all-Reach max ((run, request) ∷ rest) s end q r h =
      let (one, first, h') = bind-ok (proxy_request sv run request s) _ end h in
      let (others, later, h'') = bind-ok (serve_all sv rest one.0) _ end h' in
      let (reached, count) =
        serve_all-Reach max rest one.0 others q.1
          (proxy_request-Reach sv max run q.0 request s one r first) later in
      subst
        (λ (x : State × List (Result Response String)).
          IsReached sv.bc R max x.0.block_cache × (length x.1 ≡ suc (length rest)))
        (ok_inj h'') (reached, omega (arith, count))

  module _ (k : Crates) (config : Config) where
    -- What is true of the service when the requests are answered.
    pub record IsServed (requests : List (Run R × Request))
        (end : State × List (Result Response String)) : Type 0 where
      pub all_answered : length end.1 ≡ length requests
      pub cache_valid : IsValid hash_eq end.0.block_cache
      pub blocks_checked :
          (hash : BlockHash) (bytes : Bytes)
          → held hash_eq end.0.block_cache hash ≡ some bytes
          → IsChecked sv.bc hash bytes

    serve-Reach :
        (bind_tokio : SocketAddr → Result (Unit {0}) String) (requests : List (Run R × Request))
        (s : Started) (at : SocketAddr) (end : State × List (Result Response String))
        → IsReady k config s at
        → config.block_cache_size_mib * 1048576 + config.block_cache_size_mib * 1048576 < usize_mod
        → AreQuiet (config.block_cache_size_mib * 1048576) requests
        → serve sv bind_tokio requests s.shared at ≡ ok end
        → IsServed requests end
    unfolding serve
    serve-Reach bind_tokio requests s at end ready small quiet h =
        let max = config.block_cache_size_mib * 1048576 in
        let (_, bound, h') = bind-ok (map_err cannot_listen (bind_tokio at)) _ end h in
        let start = ready.cache_new ∙ ap new (ready.cache_size (omega (arith, small))) in
        let (reached, count) =
          serve_all-Reach max requests s.shared end quiet
            (subst (IsReached sv.bc R max) (sym start) here)
            (map_err-ok panicked (serve_all sv requests s.shared) end h') in
        record {
          all_answered = count;
          cache_valid = Reach-IsValid sv.bc max small reached;
          blocks_checked =
              λ hash bytes p. Reach-IsChecked sv.bc max end.0.block_cache reached hash bytes p;
        }

    -- If the service starts from a configuration whose cache size is below half the range of a
    -- usize, and what runs beside its requests is other requests, then whenever a list of
    -- requests has ended without a panic, each has its response, the block cache is valid, and
    -- each block in it is the serialization of a block that passed the checks for its hash.
    pub main-IsServed :
        (bind_tokio : SocketAddr → Result (Unit {0}) String) (requests : List (Run R × Request))
        (end : State × List (Result Response String))
        → config.block_cache_size_mib * 1048576 + config.block_cache_size_mib * 1048576 < usize_mod
        → AreQuiet (config.block_cache_size_mib * 1048576) requests
        → main sv k bind_tokio config requests ≡ ok end
        → IsServed requests end
    unfolding main
    main-IsServed bind_tokio requests end small quiet h =
        let (started, first, h') = bind-ok (map_err cannot_start (create_state k config)) _ end h in
        serve-Reach bind_tokio requests started.0 started.1 end
          (create_state-IsReady k config started.0 started.1
            (map_err-ok cannot_start (create_state k config) started first))
          small quiet h'

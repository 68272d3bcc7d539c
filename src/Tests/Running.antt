-- ===== src/Tests/Running.antt =====
-- The service from its start to the end of two requests.
use btc_rpc_proxy.Prelude.{
  ℕ, ◌≡◌, refl, true, none, some, List, [], ◌∷◌, Result, ok, err, String, arith,
}
use btc_rpc_proxy.Prelude.Text.{Bytes}
use btc_rpc_proxy.Client.Reply.{Response}
use btc_rpc_proxy.Users.Password.{cleartext}
use btc_rpc_proxy.Proxy.{Request, State, Run, proxy_request, login}
use btc_rpc_proxy.Proxy.Whole.{IsQuietRun}
use btc_rpc_proxy.Start.Bind.{SocketAddr}
use btc_rpc_proxy.Start.Create.{Config}
use btc_rpc_proxy.Service.{main}
use btc_rpc_proxy.Service.Laws.{IsServed, main-IsServed}
use btc_rpc_proxy.Tests.Access.{header}
use btc_rpc_proxy.Tests.Serving.{sv, run, request}
use btc_rpc_proxy.Tests.Starting.{crates, config}

abbrev one_mib : Config
one_mib = record config {
  user =
      (
        97 ∷ [],
        record {
          password = cleartext (98 ∷ []);
          allowed_calls = none;
          fetch_blocks = some true;
          override_wallet = none;
        },
      )
      ∷ [];
  passthrough_rpcauth = none;
  block_cache_size_mib = 1;
}

abbrev bind_tokio : SocketAddr → Result (Unit {0}) String
bind_tokio at = ok tt

-- One request of a stranger, and one of a user that fetches a block.
abbrev requests : List (Run ℕ × Request)
requests = (run, request none) ∷ (run, request (some header)) ∷ []

abbrev answers : State × List (Result Response String)
answers = elim (main sv crates bind_tokio one_mib requests) [
  | ok end ↦ end
  | err e ↦ (record { users = []; block_cache = btc_rpc_proxy.Cache.new 0 }, [])
]

quiet : IsQuietRun sv 1048576 run
quiet = record { of_single = λ c r. r; of_batch = λ reqs. tt }

main-IsServed_example : IsServed sv crates one_mib requests answers
unfolding proxy_request login btc_rpc_proxy.Proxy.is_served btc_rpc_proxy.Proxy.post
    btc_rpc_proxy.Proxy.enter btc_rpc_proxy.Proxy.serve btc_rpc_proxy.Proxy.send
    btc_rpc_proxy.Proxy.answer btc_rpc_proxy.Prelude.Text.bytes_eq btc_rpc_proxy.Users.Login.get
    btc_rpc_proxy.Users.Login.credentials btc_rpc_proxy.Users.Login.find
    btc_rpc_proxy.Users.Login.check btc_rpc_proxy.Users.Login.replace
    btc_rpc_proxy.Users.Password.eq btc_rpc_proxy.Users.Password.same_contents
    btc_rpc_proxy.Users.Password.xor_contents btc_rpc_proxy.Prelude.Text.strip_prefix
    btc_rpc_proxy.Prelude.Text.from_utf8 btc_rpc_proxy.Prelude.Text.split_once
    btc_rpc_proxy.Users.Intercept.Dispatch.intercept
    btc_rpc_proxy.Users.Intercept.Dispatch.is_allowed
    btc_rpc_proxy.Users.Intercept.Dispatch.contains btc_rpc_proxy.Users.Intercept.Dispatch.by_params
    btc_rpc_proxy.Users.Intercept.Dispatch.getblock
    btc_rpc_proxy.Users.Intercept.Dispatch.getblock_raw
    btc_rpc_proxy.Users.Intercept.Dispatch.raw_reply btc_rpc_proxy.Users.Intercept.first_param
    btc_rpc_proxy.Users.Intercept.block_verbosity btc_rpc_proxy.Users.Intercept.param
    btc_rpc_proxy.Fetch.Raw.fetch_block_raw btc_rpc_proxy.Cache.get btc_rpc_proxy.Cache.new
    btc_rpc_proxy.Cache.Dict.lookup btc_rpc_proxy.Fetch.Raw.fetch_block_from_self
    btc_rpc_proxy.Client.Rpc.into_result btc_rpc_proxy.Fetch.Raw.is_pruned
    btc_rpc_proxy.Fetch.Raw.is_misc btc_rpc_proxy.Fetch.Peer.fetch_block_from_peers
    btc_rpc_proxy.Fetch.Peer.fetch_block_from_peer btc_rpc_proxy.Fetch.Peer.verdict
    btc_rpc_proxy.Fetch.Witness.check_witnesses btc_rpc_proxy.Fetch.Witness.has_commitment
    btc_rpc_proxy.Fetch.Witness.has_witness btc_rpc_proxy.Fetch.Raw.from_self
    btc_rpc_proxy.Fetch.Raw.hash_eq btc_rpc_proxy.Fetch.Peer.attempt
    btc_rpc_proxy.Fetch.Peer.receive btc_rpc_proxy.Json.as_u64 btc_rpc_proxy.Prelude.ℕ_discrete
    btc_rpc_proxy.Cache.insert btc_rpc_proxy.Cache.enabled btc_rpc_proxy.Cache.store
    btc_rpc_proxy.Cache.evict btc_rpc_proxy.Client.Single.send_single
    btc_rpc_proxy.Client.Reply.into_response_to btc_rpc_proxy.Client.Rpc.is_notification
    btc_rpc_proxy.Client.Rpc.is_v2 btc_rpc_proxy.Client.Reply.into_reply
    btc_rpc_proxy.Cache.Dict.insert btc_rpc_proxy.Cache.Dict.remove main btc_rpc_proxy.Service.serve
    btc_rpc_proxy.Service.serve_all btc_rpc_proxy.Start.Create.create_state
    btc_rpc_proxy.Start.Create.all_users btc_rpc_proxy.Start.Create.started
    btc_rpc_proxy.Start.Bind.bind_addr btc_rpc_proxy.Start.Passthrough.with_file
    btc_rpc_proxy.Users.Config.map_default btc_rpc_proxy.Users.Config.user_default
    btc_rpc_proxy.Start.Create.saturating_mul btc_rpc_proxy.Client.Auth.from_config
    btc_rpc_proxy.Proxy.from_slice btc_rpc_proxy.Client.Request.deserialize
    btc_rpc_proxy.Client.Request.serialize btc_rpc_proxy.Client.Request.visit_map
    btc_rpc_proxy.Client.Request.visit_members btc_rpc_proxy.Client.Request.request_to
    btc_rpc_proxy.Serde.write btc_rpc_proxy.Client.Request.visit_member
    btc_rpc_proxy.Client.Request.method_from btc_rpc_proxy.Client.Request.params_to
    btc_rpc_proxy.Client.Request.params_from
main-IsServed_example =
    main-IsServed sv crates one_mib bind_tokio requests answers (omega arith) (quiet, (quiet, tt))
      refl

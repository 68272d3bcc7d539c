-- ===== src/Start/Ready.antt =====
-- create_state.rs: what holds of the state that the program starts with.
use btc_rpc_proxy.Prelude.{
  ◌*◌, ◌-◌, ◌≤◌, ◌<◌, ◌≡◌, ◌≢◌, refl, sym, Option, some, String, err, Bool, [], ◌∷◌, ok, subst,
  Result-cases, ok_err_clash, ok_inj, Bool-cases, inl, inr, arith,
}
use btc_rpc_proxy.Prelude.Text.{Bytes, bytes_eq}
use btc_rpc_proxy.Cache.{usize_mod, new}
use btc_rpc_proxy.Client.Auth.{AuthSource, from_config}
use btc_rpc_proxy.Users.Login as Login
use btc_rpc_proxy.Users.Config.{InputUser, map_default, user_default}
use btc_rpc_proxy.Start.Sources.{StandsFor}
use btc_rpc_proxy.Start.Named.{all_users-StandsFor, all_users_read}
use btc_rpc_proxy.Start.Members.{IsMember, user_default-IsMember}
use btc_rpc_proxy.Start.Passthrough.{InputUsers, find}
use btc_rpc_proxy.Start.Bind.{SocketAddr, Listens, bind_addr, bind_addr-Listens}
use btc_rpc_proxy.Start.Create.{
  Config, Crates, Started, saturating_mul, bitcoin_uri, all_users, started, create_state,
}
use mathlib.Core.Option

find-map_default :
    (b : Bool) (name : Bytes) (users : InputUsers)
    → Login.find name (map_default b users) ≡ Option.map (user_default b) (find name users)
unfolding Login.find map_default find
find-map_default b name [] = refl
find-map_default b name ((n, u) ∷ users) = elim (Bool-cases (bytes_eq n name)) [
  | inl e ↦ rw e refl
  | inr e ↦ rw e (find-map_default b name users)
]

module _ (k : Crates) (config : Config) where
  -- The cache is new and its size is the configured one, or the greatest a machine word holds.
  pub record IsReady (s : Started) (at : SocketAddr) : Type 0 where
    pub cache_new : s.shared.block_cache ≡ new s.shared.block_cache.max_bytes
    pub cache_word : s.shared.block_cache.max_bytes < usize_mod
    pub cache_size :
        config.block_cache_size_mib * 1048576 < usize_mod
        → s.shared.block_cache.max_bytes ≡ config.block_cache_size_mib * 1048576
    pub cache_most :
        usize_mod ≤ config.block_cache_size_mib * 1048576
        → s.shared.block_cache.max_bytes ≡ usize_mod - 1
    pub listens :
        Listens k.from_systemd_name config.bind_address config.bind_port
          config.bind_systemd_socket_name at
    pub authorizes :
        from_config k.base64_encode k.parse_header config.bitcoind_user config.bitcoind_password
          config.cookie_file
        ≡ ok s.authorization
    pub members :
        (name : Bytes)
        → (user : Option InputUser) × StandsFor k.hex_decode config name user
          × IsMember config.default_fetch_blocks user (Login.find name s.shared.users)
    pub rpcauth_read : (e : String) → config.passthrough_rpcauth ≢ some (err e)
    pub rpccookie_read : (e : String) → config.passthrough_rpccookie ≢ some (err e)

  started-IsReady :
      (auth : AuthSource) (uri : Bytes) (users : InputUsers) (at : SocketAddr)
      → from_config k.base64_encode k.parse_header config.bitcoind_user config.bitcoind_password
          config.cookie_file
        ≡ ok auth
      → bind_addr k.from_systemd_name config.bind_address config.bind_port
          config.bind_systemd_socket_name
        ≡ ok at
      → all_users k config ≡ ok users
      → IsReady (started k config auth uri users) at
  unfolding started saturating_mul new
  started-IsReady auth uri users at a b u = record {
    cache_new = refl;
    cache_word = ground arith;
    cache_size = λ h. ground arith;
    cache_most = λ h. ground arith;
    listens =
        bind_addr-Listens k.from_systemd_name config.bind_address config.bind_port
          config.bind_systemd_socket_name at b;
    authorizes = a;
    members = λ name. (
      find name users,
      all_users-StandsFor k config users name u,
      rw (find-map_default config.default_fetch_blocks name users)
          (user_default-IsMember config.default_fetch_blocks (find name users)),
    );
    rpcauth_read = λ e. (all_users_read k config users e u).0;
    rpccookie_read = λ e. (all_users_read k config users e u).1;
  }

  -- A start that succeeds gives a new cache of the configured size, or of the greatest that a
  -- machine word holds, listens where the options say and authorizes by them. A name then stands
  -- for the user of the cookie that is passed through, else for that of the last rpcauth of the
  -- name that is, else for that of the configuration, with the default of fetch_blocks and the
  -- path of the wallet filled in, or for none; and the files that are named were read.
  pub create_state-IsReady :
      (s : Started) (at : SocketAddr) → create_state k config ≡ ok (s, at) → IsReady s at
  unfolding create_state
  create_state-IsReady s at h =
      elim (Result-cases (
        from_config k.base64_encode k.parse_header config.bitcoind_user config.bitcoind_password
          config.cookie_file)) [
            | inr (e, a) ↦ absurd (ok_err_clash (sym (rw (a, create_state) at h)))
            | inl (auth, a) ↦
                elim (Result-cases
                  (k.parse_uri (bitcoin_uri config.bitcoind_address config.bitcoind_port))) [
                    | inr (e, b) ↦ absurd (ok_err_clash (sym (rw (a, b, create_state) at h)))
                    | inl (uri, b) ↦
                        elim (Result-cases (
                          bind_addr k.from_systemd_name config.bind_address config.bind_port
                            config.bind_systemd_socket_name)) [
                              | inr (e, c) ↦
                                  absurd (ok_err_clash (sym (rw (a, b, c, create_state) at h)))
                              | inl (addr, c) ↦ elim (Result-cases (all_users k config)) [
                                | inr (e, d) ↦
                                    absurd (ok_err_clash (sym (rw (a, b, c, d, create_state) at h)))
                                | inl (users, d) ↦
                                    subst (λ (x : Started × SocketAddr). IsReady x.0 x.1)
                                      (ok_inj (rw (a, b, c, d, create_state) at h))
                                      (started-IsReady auth uri users addr a c d)
                              ]
                            ]
                  ]
          ]

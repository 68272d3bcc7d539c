-- ===== src/Start/Create.antt =====
-- create_state.rs: `create_state`, from the parsed configuration to the state and the address.
use btc_rpc_proxy.Prelude.{
  ℕ, ◌*◌, ◌-◌, Bool, Option, none, some, ◌++◌, String, Result, ok, ◌>>=◌, map_err, ltb,
  if◌then◌else◌,
}
use btc_rpc_proxy.Prelude.Text.{Bytes, codes}
use btc_rpc_proxy.Prelude.Trim.{decimal}
use btc_rpc_proxy.Cache.{usize_mod, new}
use btc_rpc_proxy.Client.Auth.{AuthSource, from_config}
use btc_rpc_proxy.Fetch.Connect.{TorState}
use btc_rpc_proxy.Proxy.{State}
use btc_rpc_proxy.State.Network.{NetworkParams}
use btc_rpc_proxy.State.Peers
use btc_rpc_proxy.Users.Config.{map_default}
use btc_rpc_proxy.Start.Bind.{Level, log_level, SocketAddr, BindError, bind_addr}
use btc_rpc_proxy.Start.Passthrough.{
  InputUsers, passthrough_rpcauth, passthrough_rpccookie, with_file,
}

-- The configuration. A file is what reading it gives; an address of bitcoind is its text.
pub record Config : Type 0 where
  pub verbose : ℕ
  pub bitcoind_user : Option Bytes
  pub bitcoind_password : Option Bytes
  pub cookie_file : Option (Unit {0})
  pub bitcoind_address : Bytes
  pub bitcoind_port : ℕ
  pub tor_proxy : Option Bytes
  pub tor_only : Bool
  pub i2p_proxy : Option Bytes
  pub bind_address : Option Bytes
  pub bind_port : Option ℕ
  pub bind_systemd_socket_name : Option Bytes
  pub user : InputUsers
  pub passthrough_rpcauth : Option (Result Bytes String)
  pub passthrough_rpccookie : Option (Result Bytes String)
  pub default_fetch_blocks : Bool
  pub peer_timeout : ℕ
  pub max_peer_age : ℕ
  pub max_peer_concurrency : Option ℕ
  pub block_cache_size_mib : ℕ

-- The functions of other crates.
pub record Crates : Type 0 where
  pub base64_encode : Bytes → Bytes
  pub parse_header : Bytes → Result Bytes String
  pub parse_uri : Bytes → Result Bytes String
  pub from_systemd_name : Bytes → Result SocketAddr String
  pub hex_decode : Bytes → Result Bytes String

-- `state::State`, with what requests share of it in `shared`.
pub record Started : Type 0 where
  pub authorization : AuthSource
  pub uri : Bytes
  pub log : Level
  pub tor : Option TorState
  pub i2p_proxy : Option Bytes
  pub shared : State
  pub peer_timeout : ℕ
  pub peers : Peers.Peers
  pub max_peer_age : ℕ
  pub max_peer_concurrency : Option ℕ
  pub network : Option NetworkParams

pub data StartError : Type 0 where
  bad_config : String → StartError
  bad_bind : BindError → StartError

-- `usize::saturating_mul`
unfoldable pub saturating_mul : ℕ → ℕ → ℕ
saturating_mul a b = if ltb (a * b) usize_mod then a * b else usize_mod - 1

-- The proxy for Tor; without one `tor_only` says nothing.
unfoldable pub tor_state : Option Bytes → Bool → Option TorState
tor_state none only = none
tor_state (some proxy) only = some (record { proxy = proxy; only = only })

unfoldable pub bitcoin_uri : Bytes → ℕ → Bytes
bitcoin_uri address port =
    codes "http://" ++ (address ++ (codes ":" ++ (decimal port ++ codes "/")))

module _ (k : Crates) (config : Config) where
  -- The users of the configuration, then those of bitcoind, which replace them.
  unfoldable pub all_users : Result InputUsers String
  all_users = do
    users ← with_file config.passthrough_rpcauth (passthrough_rpcauth k.hex_decode) config.user
    with_file config.passthrough_rpccookie (λ ls us. ok (passthrough_rpccookie ls us)) users

  unfoldable pub started : AuthSource → Bytes → InputUsers → Started
  started auth uri users = record {
    authorization = auth;
    uri = uri;
    log = log_level config.verbose;
    tor = tor_state config.tor_proxy config.tor_only;
    i2p_proxy = config.i2p_proxy;
    shared = record {
      users = map_default config.default_fetch_blocks users;
      block_cache = new (saturating_mul config.block_cache_size_mib 1048576);
    };
    peer_timeout = config.peer_timeout;
    peers = Peers.new;
    max_peer_age = config.max_peer_age;
    max_peer_concurrency = config.max_peer_concurrency;
    network = none;
  }

  unfoldable pub create_state : Result (Started × SocketAddr) StartError
  unfolding started bitcoin_uri
  create_state = do
    auth ← map_err bad_config (
        from_config k.base64_encode k.parse_header config.bitcoind_user config.bitcoind_password
          config.cookie_file)
    uri ←
        map_err bad_config (k.parse_uri (bitcoin_uri config.bitcoind_address config.bitcoind_port))
    addr ← map_err bad_bind (
        bind_addr k.from_systemd_name config.bind_address config.bind_port
          config.bind_systemd_socket_name)
    users ← map_err bad_config all_users
    ok (started auth uri users, addr)

-- ===== src/Tests/Starting.antt =====
-- What the program starts with.
use btc_rpc_proxy.Prelude.{
  ℕ, ◌≡◌, refl, false, Option, none, some, List, [], ◌∷◌, Result, ok, err, arith, String,
}
use btc_rpc_proxy.Prelude.Text.{Bytes, codes}
use btc_rpc_proxy.Client.Auth.{from_config}
use btc_rpc_proxy.Start.Passthrough.{InputUsers, find, passthrough_rpcauth, with_file}
use btc_rpc_proxy.Start.Bind.{ip, bind_addr, default_bind_address, default_bind_port}
use btc_rpc_proxy.Start.Create.{
  Config, Crates, Started, create_state, all_users, started, bitcoin_uri,
}
use btc_rpc_proxy.Start.Laws.{
  Rpcauth, IsRpcauth, written_all, stands_for, last_of, passthrough_rpcauth-written,
}
use btc_rpc_proxy.Start.Ready.{IsReady, create_state-IsReady}

abbrev identity : Bytes → Result Bytes String
identity s = ok s

abbrev alice : Rpcauth
alice = record { name = codes "alice"; salt = codes "5a"; code = codes "0f"; bytes = codes "0f" }

alice-IsRpcauth : IsRpcauth identity alice
alice-IsRpcauth = record {
  name_visible = ground arith;
  salt_visible = ground arith;
  code_visible = ground arith;
  no_colon = ground arith;
  no_dollar = ground arith;
  decoded = refl;
}

passthrough_rpcauth-written_example :
    (users' : InputUsers) × (with_file
        (some (ok (written_all (alice ∷ alice ∷ []))))
        (passthrough_rpcauth identity)
        []
      ≡ ok users')
    × ((name : Bytes) → find name users' ≡ stands_for [] name (last_of name (alice ∷ alice ∷ [])))
passthrough_rpcauth-written_example =
    passthrough_rpcauth-written identity (alice ∷ alice ∷ []) []
      (alice-IsRpcauth, (alice-IsRpcauth, tt))

abbrev pub crates : Crates
crates = record {
  base64_encode = λ s. s;
  parse_header = identity;
  parse_uri = identity;
  from_systemd_name = λ s. err "no socket";
  hex_decode = identity;
}

abbrev pub config : Config
config = record {
  verbose = 2;
  bitcoind_user = none;
  bitcoind_password = none;
  cookie_file = some tt;
  bitcoind_address = codes "127.0.0.1";
  bitcoind_port = 8332;
  tor_proxy = none;
  tor_only = false;
  i2p_proxy = none;
  bind_address = none;
  bind_port = none;
  bind_systemd_socket_name = none;
  user = [];
  passthrough_rpcauth = some (ok (codes "rpcauth=a:b$c"));
  passthrough_rpccookie = none;
  default_fetch_blocks = false;
  peer_timeout = 30;
  max_peer_age = 300;
  max_peer_concurrency = some 1;
  block_cache_size_mib = 20000000000000;
}

abbrev users : InputUsers
users = elim (all_users crates config) [ ok us ↦ us | err e ↦ [] ]

abbrev state : Started
state =
    started crates config (btc_rpc_proxy.Client.Auth.cookie_file none)
      (bitcoin_uri (codes "127.0.0.1") 8332) users

create_state-IsReady_example :
    IsReady crates config state (ip default_bind_address default_bind_port)
unfolding create_state from_config bind_addr all_users with_file passthrough_rpcauth
    btc_rpc_proxy.Prelude.Trim.lines btc_rpc_proxy.Start.Passthrough.rpcauth_line
    btc_rpc_proxy.Prelude.Text.strip_prefix btc_rpc_proxy.Prelude.Trim.trim
    btc_rpc_proxy.Prelude.Trim.trim_end btc_rpc_proxy.Prelude.Trim.white
    btc_rpc_proxy.Prelude.Text.split_once
create_state-IsReady_example =
    create_state-IsReady crates config state (ip default_bind_address default_bind_port) refl

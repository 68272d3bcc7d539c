-- ===== src/Start/Sources.antt =====
-- create_state.rs: which user a name stands for, among those of the configuration, of bitcoind's
-- `rpcauth` lines and of its cookie.
use btc_rpc_proxy.Prelude.{◌≡◌, Option, none, some, List, ◌∷◌, String, Result, ok}
use btc_rpc_proxy.Prelude.Text.{Bytes, split_once}
use btc_rpc_proxy.Prelude.Trim.{trim, lines}
use btc_rpc_proxy.Users.Password.{Password, hash, cookie_file}
use btc_rpc_proxy.Users.Config.{InputUser}
use btc_rpc_proxy.Start.Passthrough.{find, rpcauth_line}
use btc_rpc_proxy.Start.Create.{Config}

-- A user of bitcoind's, who may call every method.
abbrev pub bitcoind_user : Password → InputUser
bitcoind_user password = record {
  password = password;
  allowed_calls = none;
  fetch_blocks = none;
  override_wallet = none;
}

-- One of the lines of the cookie's file has the name before its first colon.
pub data HasCookie (name : Bytes) : List Bytes → Type 0 where
  here :
      (line rest : Bytes) (ls : List Bytes)
      → split_once b':' (trim line) ≡ some (name, rest)
      → HasCookie name (line ∷ ls)
  later : (line : Bytes) (ls : List Bytes) → HasCookie name ls → HasCookie name (line ∷ ls)

-- One of the lines is an `rpcauth` of the name.
pub data HasRpcauth (name : Bytes) : List Bytes → Type 0 where
  here :
      (line salt code : Bytes) (ls : List Bytes)
      → rpcauth_line line ≡ some (name, salt, code)
      → HasRpcauth name (line ∷ ls)
  later : (line : Bytes) (ls : List Bytes) → HasRpcauth name ls → HasRpcauth name (line ∷ ls)

-- The last `rpcauth` of the name has this salt and this code.
pub data IsLastRpcauth (name salt code : Bytes) : List Bytes → Type 0 where
  here :
      (line : Bytes) (ls : List Bytes)
      → rpcauth_line line ≡ some (name, salt, code)
      → ¬ HasRpcauth name ls
      → IsLastRpcauth name salt code (line ∷ ls)
  later :
      (line : Bytes) (ls : List Bytes)
      → IsLastRpcauth name salt code ls
      → IsLastRpcauth name salt code (line ∷ ls)

-- The user that a name stands for: the cookie's, else that of the last `rpcauth` of the name, else
-- that of the configuration.
pub data StandsFor (hex_decode : Bytes → Result Bytes String) (config : Config) (name : Bytes)
    : Option InputUser → Type 0 where
  by_cookie :
      (text : Bytes)
      → config.passthrough_rpccookie ≡ some (ok text)
      → HasCookie name (lines text)
      → StandsFor hex_decode config name (some (bitcoind_user (cookie_file none)))
  by_rpcauth :
      (text salt code bytes : Bytes)
      → ((cookies : Bytes)
          → config.passthrough_rpccookie ≡ some (ok cookies)
          → ¬ HasCookie name (lines cookies))
      → config.passthrough_rpcauth ≡ some (ok text)
      → IsLastRpcauth name salt code (lines text)
      → hex_decode code ≡ ok bytes
      → StandsFor hex_decode config name (some (bitcoind_user (hash salt bytes)))
  by_config :
      ((cookies : Bytes)
        → config.passthrough_rpccookie ≡ some (ok cookies)
        → ¬ HasCookie name (lines cookies))
      → ((text : Bytes)
          → config.passthrough_rpcauth ≡ some (ok text)
          → ¬ HasRpcauth name (lines text))
      → StandsFor hex_decode config name (find name config.user)

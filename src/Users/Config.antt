-- ===== src/Users/Config.antt =====
-- users.rs: the users of the configuration, with the defaults filled in.
use btc_rpc_proxy.Prelude.{Bool, Option, none, some, List, ◌++◌, String, map}
use btc_rpc_proxy.Prelude.Text.{Bytes, codes}
use btc_rpc_proxy.Users.Password.{Password}
use btc_rpc_proxy.Users.Login.{User, Users}

-- `input::User`
pub record InputUser : Type 0 where
  pub password : Password
  pub allowed_calls : Option (List String)
  pub fetch_blocks : Option Bool
  pub override_wallet : Option Bytes

-- `unwrap_or`
unfoldable pub or_default : Option Bool → Bool → Bool
or_default none b = b
or_default (some a) b = a

unfoldable pub wallet_path : Option Bytes → Option Bytes
wallet_path none = none
wallet_path (some w) = some (codes "/wallet/" ++ w)

-- `User::map_default`
unfoldable pub user_default : Bool → InputUser → User
unfolding or_default wallet_path
user_default default_fetch_blocks u = record {
  password = u.password;
  allowed_calls = u.allowed_calls;
  fetch_blocks = or_default u.fetch_blocks default_fetch_blocks;
  override_wallet = wallet_path u.override_wallet;
}

unfoldable pub map_default : Bool → List (Bytes × InputUser) → Users
map_default default_fetch_blocks users =
    map (λ (x : Bytes × InputUser). (x.0, user_default default_fetch_blocks x.1)) users

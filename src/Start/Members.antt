-- ===== src/Start/Members.antt =====
-- users.rs, `map_default`: a user with the defaults filled in, said member by member.
use btc_rpc_proxy.Prelude.{◌≡◌, refl, Bool, Option, none, some, ◌++◌}
use btc_rpc_proxy.Prelude.Text.{Bytes, codes}
use mathlib.Core.Option
use btc_rpc_proxy.Users.Config.{InputUser, user_default, or_default, wallet_path}
use btc_rpc_proxy.Users.Login.{User}

-- A user of the configuration with the default and the path of the wallet filled in.
pub record IsDefaulted (default_fetch_blocks : Bool) (u : InputUser) (v : User) : Type 0 where
  pub password : v.password ≡ u.password
  pub allowed_calls : v.allowed_calls ≡ u.allowed_calls
  pub own_fetch_blocks : (b : Bool) → u.fetch_blocks ≡ some b → v.fetch_blocks ≡ b
  pub default : u.fetch_blocks ≡ none → v.fetch_blocks ≡ default_fetch_blocks
  pub wallet :
      (w : Bytes) → u.override_wallet ≡ some w → v.override_wallet ≡ some (codes "/wallet/" ++ w)
  pub no_wallet : u.override_wallet ≡ none → v.override_wallet ≡ none

pub data IsMember (default_fetch_blocks : Bool) : Option InputUser → Option User → Type 0 where
  nobody : IsMember default_fetch_blocks none none
  somebody :
      (u : InputUser) (v : User)
      → IsDefaulted default_fetch_blocks u v
      → IsMember default_fetch_blocks (some u) (some v)

user_default-IsDefaulted : (b : Bool) (u : InputUser) → IsDefaulted b u (user_default b u)
unfolding user_default or_default wallet_path
user_default-IsDefaulted b u = record {
  password = refl;
  allowed_calls = refl;
  own_fetch_blocks = λ c e. rw (e, user_default) refl;
  default = λ e. rw (e, user_default) refl;
  wallet = λ w e. rw (e, user_default) refl;
  no_wallet = λ e. rw (e, user_default) refl;
}

pub user_default-IsMember :
    (b : Bool) (o : Option InputUser) → IsMember b o (Option.map (user_default b) o)
user_default-IsMember b none = nobody
user_default-IsMember b (some u) = somebody u (user_default b u) (user_default-IsDefaulted b u)

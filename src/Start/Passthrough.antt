-- ===== src/Start/Passthrough.antt =====
-- create_state.rs: the users that bitcoind's own configuration and cookie add.
use btc_rpc_proxy.Prelude.{
  Option, none, some, List, [], ◌∷◌, String, Result, ok, ◌>>=◌, if◌then◌else◌,
}
use btc_rpc_proxy.Prelude.Text.{Bytes, codes, bytes_eq, split_once, strip_prefix}
use btc_rpc_proxy.Prelude.Trim.{trim, lines}
use btc_rpc_proxy.Users.Password.{Password, hash, cookie_file}
use btc_rpc_proxy.Users.Config.{InputUser}
use btc_rpc_proxy.Users.Login.{and_then}

-- `HashMap<String, input::User>`, which holds a name at most once.
abbrev pub InputUsers : Type 0
InputUsers = List (Bytes × InputUser)

-- `HashMap::insert`: the user of that name is replaced.
unfoldable pub insert : Bytes → InputUser → InputUsers → InputUsers
insert name u [] = (name, u) ∷ []
insert name u ((n, v) ∷ users) =
    let rest = (n, v) ∷ insert name u users in if bytes_eq n name then (n, u) ∷ users else rest

unfoldable pub find : Bytes → InputUsers → Option InputUser
find name [] = none
find name ((n, u) ∷ users) = let rest = find name users in if bytes_eq n name then some u else rest

abbrev pub rpcauth_key : Bytes
rpcauth_key = codes "rpcauth="

-- The name, the salt and the code of a line, if it is one of a user.
unfoldable pub rpcauth_line : Bytes → Option (Bytes × Bytes × Bytes)
rpcauth_line line = and_then (strip_prefix rpcauth_key (trim line)) λ tok.
    and_then (split_once b':' (trim tok))
      λ named. and_then (split_once b'$' named.1) λ salted. some (named.0, salted.0, salted.1)

-- A user of bitcoind's may call every method.
abbrev pub passthrough_user : Password → InputUser
passthrough_user password = record {
  password = password;
  allowed_calls = none;
  fetch_blocks = none;
  override_wallet = none;
}

-- `hex_decode` is that of the hex crate.
module _ (hex_decode : Bytes → Result Bytes String) where
  unfoldable pub add_rpcauth :
      Option (Bytes × Bytes × Bytes) → InputUsers → Result InputUsers String
  add_rpcauth none users = ok users
  add_rpcauth (some (uname, salt, code)) users =
      hex_decode code >>= λ bytes. ok (insert uname (passthrough_user (hash salt bytes)) users)

  -- The loop over the lines of the file. One bad code ends it.
  unfoldable pub passthrough_rpcauth : List Bytes → InputUsers → Result InputUsers String
  unfolding add_rpcauth
  passthrough_rpcauth [] users = ok users
  passthrough_rpcauth (line ∷ rest) users =
      add_rpcauth (rpcauth_line line) users >>= λ users'. passthrough_rpcauth rest users'

unfoldable pub add_cookie : Option (Bytes × Bytes) → InputUsers → InputUsers
add_cookie none users = users
add_cookie (some (uname, _)) users = insert uname (passthrough_user (cookie_file none)) users

-- The loop over the lines of the cookie's file, of which only the name is kept.
unfoldable pub passthrough_rpccookie : List Bytes → InputUsers → InputUsers
unfolding add_cookie
passthrough_rpccookie [] users = users
passthrough_rpccookie (line ∷ rest) users =
    passthrough_rpccookie rest (add_cookie (split_once b':' (trim line)) users)

-- A file that is named is read whole, or ends the start.
unfoldable pub with_file :
    Option (Result Bytes String)
    → (List Bytes → InputUsers → Result InputUsers String)
    → InputUsers
    → Result InputUsers String
with_file none f users = ok users
with_file (some contents) f users = contents >>= λ text. f (lines text) users

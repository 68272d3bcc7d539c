-- ===== src/Tests/Access.antt =====
-- Users, passwords and the requests that are intercepted.
use btc_rpc_proxy.Prelude.{
  ℕ, zero, suc, ◌≡◌, ◌≢◌, ◌↔◌, ◌⊎◌, inl, inr, refl, Bool, true, false, Option, none, some, List, [],
  ◌∷◌, String, Result, ok, err, arith, All, if◌then◌else◌,
}
use btc_rpc_proxy.Prelude.Text.{Bytes, codes}
use btc_rpc_proxy.Prelude.Int.{pos}
use btc_rpc_proxy.Json.{Value, null, string, number, int, bool}
use btc_rpc_proxy.Client.Rpc.{RpcRequest, RpcResponse, array}
use btc_rpc_proxy.Cache.{new}
use btc_rpc_proxy.Users.Password.{
  Observed, cleartext, rem_by_zero, eq, cookie_password, from_cache, password_of, try_from,
  parse_arg,
}
use btc_rpc_proxy.Users.Password.Laws.{IsPrintable, parse_arg-try_from_iff}
use btc_rpc_proxy.Users.Password.Cookie.{
  IsCurrent, cookie_password-IsQuiet, cookie_password_replaced,
}
use btc_rpc_proxy.Users.Login.{
  User, Users, Codecs, credentials, find, get, get_sound, get-cleartext_iff, get-empty_panics,
}
use btc_rpc_proxy.RpcMethods.Results.{Crates}
use btc_rpc_proxy.Serde.{invalid_type}
use btc_rpc_proxy.Users.Intercept.{Formats, Calls, fetch_first, index_out_of_bounds, interceptable}
use btc_rpc_proxy.Users.Intercept.Dispatch.{intercept}
use btc_rpc_proxy.Users.Intercept.Laws.{IsCall, IsCrash, interceptable_iff, intercept_panics_iff}
use btc_rpc_proxy.Tests.Fixture.{bc, outside}

parse_arg-try_from_iff_example :
    ((try_from (65 ∷ 10 ∷ []) ≡ ok (cleartext (65 ∷ 10 ∷ []))) ↔ All IsPrintable (65 ∷ 10 ∷ []))
    × ((parse_arg (65 ∷ 10 ∷ []) ≡ ok (cleartext (65 ∷ 10 ∷ []))) ↔ All IsPrintable (65 ∷ 10 ∷ []))
parse_arg-try_from_iff_example = parse_arg-try_from_iff (65 ∷ 10 ∷ [])

-- The file changes from `:a` to `:b` at the time 2.
abbrev version : ℕ → Bytes
version t = elim t [ zero ↦ 58 ∷ 97 ∷ [] | suc _ ↦ 58 ∷ 98 ∷ [] ]

abbrev seen : Option ℕ → ℕ → Option ℕ → Observed
seen before t after = record {
  mtime = before;
  can_read = true;
  contents = some (version t);
  mtime_after = after;
  can_write = true;
}

cookie_password-IsQuiet_example :
    ((cookie_password (seen (some 0) 0 (some 0)) none).1 ≡ password_of (version 0))
    × IsCurrent version (cookie_password (seen (some 0) 0 (some 0)) none).0
cookie_password-IsQuiet_example =
    cookie_password-IsQuiet version 0 (seen (some 0) 0 (some 0)) none
      (record { mtime = refl; contents = refl; mtime_after = refl }) tt

cookie_password_replaced_example :
    ((cookie_password
        (seen (some 1) 1 (some 1))
        (cookie_password (seen (some 0) 0 (some 1)) none).0).1
      ≡ some (97 ∷ []))
    × ((cookie_password
          (seen (some 1) 1 (some 1))
          (cookie_password (seen (some 0) 0 (some 1)) none).0).1
        ≢ password_of (version 1))
unfolding password_of from_cache btc_rpc_proxy.Prelude.Text.split_once
    btc_rpc_proxy.Prelude.Text.trim_end_matches
cookie_password_replaced_example =
    cookie_password_replaced version 0 1 (seen (some 0) 0 (some 1)) (seen (some 1) 1 (some 1)) none
      (97 ∷ []) (record { missed = refl; contents = refl; mtime_after = refl; can_write = refl })
      refl (λ e. absurd (ground arith))
      (record { mtime = refl; contents = refl; mtime_after = refl }) refl

-- The header's text is what follows `Basic `, as it is.
abbrev pub codecs : Codecs
codecs = record { to_str = λ h. some h; base64_decode = λ h. some h; hmac = λ salt text. none }

-- The user `a`, with the password `b`.
abbrev pub user : User
user = record {
  password = cleartext (98 ∷ []);
  allowed_calls = some ("getblock" ∷ "getrawtransaction" ∷ []);
  fetch_blocks = true;
  override_wallet = none;
}

abbrev pub users : Users
users = (97 ∷ [], user) ∷ []

abbrev pub any : Observed
any = seen none 0 none

-- `Basic a:b`
abbrev pub header : Bytes
header = 66 ∷ 97 ∷ 115 ∷ 105 ∷ 99 ∷ 32 ∷ 97 ∷ 58 ∷ 98 ∷ []

-- `Basic a:`
abbrev empty_header : Bytes
empty_header = 66 ∷ 97 ∷ 115 ∷ 105 ∷ 99 ∷ 32 ∷ 97 ∷ 58 ∷ []

get_sound_example :
    (pass : Bytes) × (u : User) × (credentials codecs header ≡ some (97 ∷ [], pass))
    × (find (97 ∷ []) users ≡ some u)
    × ((eq codecs.hmac u.password any pass).0 ≡ ok true)
    × (user ≡ record u { password = (eq codecs.hmac u.password any pass).1 })
unfolding get credentials find btc_rpc_proxy.Prelude.Text.strip_prefix
    btc_rpc_proxy.Prelude.Text.from_utf8 btc_rpc_proxy.Prelude.Text.split_once
    btc_rpc_proxy.Prelude.Text.bytes_eq btc_rpc_proxy.Users.Login.check eq
    btc_rpc_proxy.Users.Login.replace
get_sound_example = get_sound codecs any users header (97 ∷ []) user users refl

get-cleartext_iff_example :
    (users' : Users) × (r : Option (Bytes × User)) × (get codecs any users header ≡ ok (users', r))
    × ((r ≡ some (97 ∷ [], record user { password = cleartext (98 ∷ []) }))
        ↔ (◌≡◌ {A = Bytes} (98 ∷ []) (98 ∷ [])))
unfolding credentials find btc_rpc_proxy.Prelude.Text.strip_prefix
    btc_rpc_proxy.Prelude.Text.from_utf8 btc_rpc_proxy.Prelude.Text.split_once
    btc_rpc_proxy.Prelude.Text.bytes_eq
get-cleartext_iff_example =
    get-cleartext_iff codecs any users header (97 ∷ []) (98 ∷ []) (98 ∷ []) user refl refl
      (inr (λ e. absurd (cc)))

get-empty_panics_example : get codecs any users empty_header ≡ err rem_by_zero
unfolding credentials find btc_rpc_proxy.Prelude.Text.strip_prefix
    btc_rpc_proxy.Prelude.Text.from_utf8 btc_rpc_proxy.Prelude.Text.split_once
    btc_rpc_proxy.Prelude.Text.bytes_eq
get-empty_panics_example =
    get-empty_panics codecs any users empty_header (97 ∷ []) (98 ∷ []) user refl refl
      (λ e. absurd (cc))

abbrev bytes_of : Value → Result Bytes String
bytes_of (number (int (pos n))) = ok (n ∷ [])
bytes_of _ = err "no hash"

abbrev pub crates : Crates
crates = record {
  hash_from = λ v. err invalid_type;
  hash_to = λ h. null;
  float_from = λ v. err invalid_type;
  float_to = λ d. null;
  decode = λ s. err "no digits";
  encode = λ b. "hex";
}

abbrev pub formats : Formats
formats = record {
  hash_from_value = bytes_of;
  txid_from_value = bytes_of;
  crates = crates;
  serialize_hex = λ tx. "tx";
  size = λ b. 2;
  strippedsize = λ b. 1;
  weight = λ b. 4;
}

abbrev pub no_calls : Calls
no_calls = record {
  getblockheader = err (record { code = pos 1; message = "off"; status = none });
  header_from_null = err "null";
  decoderawtransaction = λ hex. err (record { code = pos 1; message = "off"; status = none });
  decoded_from_null = ok null;
  race = fetch_first;
  decoded_first = true;
}

abbrev pub num : ℕ → Value
num n = number (int (pos n))

-- Transaction 5 of block 1.
abbrev params : List Value
params = num 5 ∷ bool false ∷ num 1 ∷ []

abbrev pub request : String → List Value → RpcRequest
request method ps = record { jsonrpc = none; id = some (num 0); method = method; params = array ps }

interceptable_iff_example :
    (interceptable formats params ≡ some (5 ∷ [], false, 1 ∷ []))
    ↔ IsCall formats params (5 ∷ []) false (1 ∷ [])
interceptable_iff_example = interceptable_iff formats params (5 ∷ []) false (1 ∷ [])

intercept_panics_iff_example :
    (intercept bc formats no_calls outside (λ c. c) user (request "getblock" []) (new 10)
      ≡ err index_out_of_bounds)
    ↔ IsCrash user (request "getblock" [])
intercept_panics_iff_example =
    intercept_panics_iff bc formats no_calls outside (λ c. c) user (request "getblock" []) (new 10)

abbrev reply : RpcResponse Value
reply = record { id = some (num 0); error = none; result = some (string "tx") }

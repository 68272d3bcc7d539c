-- ===== src/Proxy.antt =====
-- proxy.rs: `proxy_request`, which serves one HTTP request.
pub mod Whole
pub mod Reach
pub mod Laws
pub mod Refused
pub mod Written
use btc_rpc_proxy.Prelude.{
  ℕ, Bool, true, false, ◌||◌, Option, none, some, List, [], ◌∷◌, String, Result, ok, err, ◌>>=◌,
  map_err, if◌then◌else◌, length,
}
use btc_rpc_proxy.Prelude.Text.{Bytes, codes, bytes_eq, starts_with}
use btc_rpc_proxy.Json.{Value}
use btc_rpc_proxy.Cache.{BlockCache}
use btc_rpc_proxy.Client.Request.{SingleOrBatch, single, batch, Body, deserialize}
use btc_rpc_proxy.Serde.{DecodeError}
use btc_rpc_proxy.Client.Rpc.{RpcRequest, RpcResponse, RpcError, from_json_error, from_rpc_error}
use btc_rpc_proxy.Client.Reply.{Response, into_response, empty_body}
use btc_rpc_proxy.Client.Merge.{Itertools}
use btc_rpc_proxy.Client.Batch.{Call, Upstream, send_all}
use btc_rpc_proxy.Client.Single.{Forward, send_single}
use btc_rpc_proxy.Fetch.Block.{BlockHash, Bitcoin}
use btc_rpc_proxy.Fetch.Raw.{Outside}
use btc_rpc_proxy.Users.Password.{Observed, Panic}
use btc_rpc_proxy.Users.Login.{User, Users, Codecs, and_then, get}
use btc_rpc_proxy.Users.Intercept.{Formats, Calls, OutOfBounds}
use btc_rpc_proxy.Users.Intercept.RawTransaction.{Answered}
use btc_rpc_proxy.Users.Intercept.Dispatch.{intercept}

-- What is read of an HTTP request; `body` is what `to_bytes` gives.
pub record Request : Type 0 where
  pub path : Bytes
  pub method : Bytes
  pub authorization : Option Bytes
  pub body : Result Bytes String

-- The state that requests share.
pub record State : Type 0 where
  pub users : Users
  pub block_cache : BlockCache BlockHash

-- Where a handler stops without an answer.
pub data Crash : Type 0 where
  in_password : Panic → Crash
  in_params : OutOfBounds → Crash

-- What the world does during one interception.
pub record World (R : Type 0) : Type 0 where
  pub outside : Outside R
  pub calls : Calls
  pub meanwhile : BlockCache BlockHash → BlockCache BlockHash

-- The functions of other crates, and bitcoind as it is reached by a path. `parse` is the parser of
-- serde_json, and `display` is the message of an error behind it.
pub record Services : Type 0 where
  pub bc : Bitcoin
  pub formats : Formats
  pub codecs : Codecs
  pub itertools : Itertools (ℕ × Value)
  pub parse : Bytes → Result Body String
  pub display : DecodeError → String
  pub to_vec : Value → Result Bytes String
  pub to_vec_all : List Value → Result Bytes String
  pub forward : Bytes → Forward
  pub upstream : Bytes → Upstream

-- The run of one request: what `metadata` shows of cookie files, what happens during the
-- interception of a single request, and in a batch the order in which the calls finish.
pub record Run (R : Type 0) : Type 0 where
  pub observed : Observed
  pub world : World R
  pub finishing : List RpcRequest → List (ℕ × RpcRequest × World R)
  pub send_first : Bool

-- `unwrap_or`
abbrev pub unwrap_or : {A : Type 0} → Option A → A → A
unwrap_or none a = a
unwrap_or (some b) a = b

unfoldable pub is_served : Bytes → Bool
is_served path =
    bytes_eq path (codes "/") || (bytes_eq path [] || starts_with (codes "/wallet/") path)

abbrev pub not_found : Response
not_found = empty_body 404

abbrev pub wrong_method : Response
wrong_method = record {
  status = 405;
  content_length = none;
  www_authenticate = none;
  body = codes "JSONRPC server handles only POST requests";
}

abbrev pub unauthorized : Response
unauthorized = record {
  status = 401;
  content_length = none;
  www_authenticate = some "Basic realm=\"jsonrpc\"";
  body = [];
}

-- `serde_json::from_slice`
unfoldable pub from_slice : Services → Bytes → Result SingleOrBatch String
from_slice sv body_data = sv.parse body_data >>= λ body. map_err sv.display (deserialize body)

module _ (sv : Services) {R : Type 0} where
  unfoldable pub answer :
      User → World R → RpcRequest → BlockCache BlockHash → Result Answered OutOfBounds
  answer u w req cache = intercept sv.bc sv.formats w.calls w.outside w.meanwhile u req cache

  -- The calls of a batch, in the order in which they finish. Each starts on the cache that the one
  -- before it left; the program polls them together, so that a call's lookup may come before the
  -- end of the calls that finish ahead of it, which is then no run of this.
  unfoldable pub answer_all :
      User
      → List (ℕ × RpcRequest × World R)
      → BlockCache BlockHash
      → Result (BlockCache BlockHash × List (ℕ × Call)) OutOfBounds
  unfolding answer
  answer_all u [] cache = ok (cache, [])
  answer_all u ((idx, req, w) ∷ rest) cache = answer u w req cache >>= λ one.
      answer_all u rest one.0 >>= λ others.
      ok (others.0, (idx, record { req = req; outcome = one.1 }) ∷ others.1)

  unfoldable pub send :
      Run R
      → User
      → Bytes
      → SingleOrBatch
      → BlockCache BlockHash
      → Result (BlockCache BlockHash × Result Response String) OutOfBounds
  unfolding answer
  send run u path (single req) cache = answer u run.world req cache >>= λ one.
      ok (one.0, send_single sv.to_vec (sv.forward path) req one.1)
  send run u path (batch reqs) cache = answer_all u (run.finishing reqs) cache >>= λ all. ok (
    all.0,
    send_all sv.itertools (sv.upstream path) sv.to_vec sv.to_vec_all reqs run.send_first all.1,
  )

  -- From the body of a request whose user is known.
  unfoldable pub serve :
      Run R
      → Request
      → User
      → BlockCache BlockHash
      → Result (BlockCache BlockHash × Result Response String) OutOfBounds
  unfolding send
  serve run request u cache = elim request.body [
    | err e ↦ ok (cache, err e)
    | ok body_data ↦ elim (from_slice sv body_data) [
      | err e ↦ ok (cache, into_response sv.to_vec (from_rpc_error (from_json_error e)))
      | ok req ↦ send run u (unwrap_or u.override_wallet request.path) req cache
    ]
  ]

  -- The user that the Authorization header lets in.
  unfoldable pub login : Run R → Request → Users → Result (Users × Option (Bytes × User)) Panic
  login run request users = elim request.authorization [
    | none ↦ ok (users, none)
    | some auth ↦ get sv.codecs run.observed users auth
  ]

  -- What follows the login.
  unfoldable pub enter :
      Run R
      → Request
      → BlockCache BlockHash
      → Users × Option (Bytes × User)
      → Result (State × Result Response String) Crash
  unfolding serve
  enter run request cache (users, none) =
      ok (record { users = users; block_cache = cache }, ok unauthorized)
  enter run request cache (users, some (name, u)) =
      map_err in_params (serve run request u cache) >>= λ served.
      ok (record { users = users; block_cache = served.0 }, served.1)

  -- A request for the JSON-RPC server.
  unfoldable pub post : Run R → Request → State → Result (State × Result Response String) Crash
  unfolding login enter
  post run request s = map_err in_password (login run request s.users) >>= λ entered.
      enter run request s.block_cache entered

  -- `err e` is an error for the server, which then drops the connection.
  unfoldable pub proxy_request :
      Run R → Request → State → Result (State × Result Response String) Crash
  unfolding post
  proxy_request run request s =
      let posted = post run request s in
      if is_served request.path
      then (if bytes_eq request.method (codes "POST") then posted else ok (s, ok wrong_method))
      else ok (s, ok not_found)

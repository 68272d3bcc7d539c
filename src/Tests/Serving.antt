-- ===== src/Tests/Serving.antt =====
-- Whole HTTP requests.
use btc_rpc_proxy.Prelude.{
  ◌∙◌, inl, ℕ, ◌≡◌, refl, Bool, true, false, Option, none, some, List, [], ◌∷◌, map, String, Result,
  ok, err, All, map_err, ◌>>=◌,
}
use btc_rpc_proxy.Prelude.Text.{Bytes, codes}
use btc_rpc_proxy.Prelude.Int.{pos}
use btc_rpc_proxy.Json.{number, int}
use btc_rpc_proxy.Client.Rpc.{RpcRequest, RpcError, from_rpc_error, array}
use btc_rpc_proxy.Client.Reply.{Response, into_response, with_body}
use btc_rpc_proxy.Client.Single.{Forward}
use btc_rpc_proxy.Cache.{new}
use btc_rpc_proxy.Fetch.Raw.Reach.{here}
use btc_rpc_proxy.Users.Login.{Users}
use btc_rpc_proxy.Client.Request.{single, batch, serialize}
use btc_rpc_proxy.Proxy.{
  Request, State, Services, World, Run, Crash, is_served, in_params, login, send, proxy_request,
  unauthorized,
}
use btc_rpc_proxy.Proxy.Refused.{proxy_request-IsDenied}
use btc_rpc_proxy.Users.Intercept.Dispatch.{not_allowed}
use btc_rpc_proxy.Proxy.Written.{IsPosted, proxy_request-IsPosted}
use btc_rpc_proxy.Proxy.Reach.{IsReached}
use btc_rpc_proxy.Proxy.Whole.{IsQuietRun, proxy_request-Reach}
use btc_rpc_proxy.Tests.Fixture.{bc, outside}
use btc_rpc_proxy.Tests.Batching.{itertools, upstream, to_vec, to_vec_all}
use btc_rpc_proxy.Tests.Access.{user, users, any, header, codecs, formats, no_calls}

abbrev forward : Forward
forward = record {
  parse_path = ok tt;
  try_load = ok [];
  from_parts = ok tt;
  to_string = λ req. ok [];
  request = λ authorization body. err "down";
}

-- `getblock` of block 1, verbosity 0.
abbrev pub getblock : RpcRequest
getblock = record {
  jsonrpc = none;
  id = none;
  method = "getblock";
  params = array (number (int (pos 1)) ∷ number (int (pos 0)) ∷ []);
}

abbrev pub sv : Services
sv = record {
  bc = bc;
  formats = formats;
  codecs = codecs;
  itertools = itertools;
  parse = λ body. ok (serialize (single getblock));
  display = λ e. "decode";
  to_vec = to_vec;
  to_vec_all = to_vec_all;
  forward = λ path. forward;
  upstream = λ path. upstream;
}

abbrev pub world : World ℕ
world = record { outside = outside; calls = no_calls; meanwhile = λ c. c }

abbrev pub run : Run ℕ
run = record { observed = any; world = world; finishing = λ reqs. []; send_first = false }

abbrev pub request : Option Bytes → Request
request authorization = record {
  path = codes "/";
  method = codes "POST";
  authorization = authorization;
  body = ok [];
}

abbrev state : State
state = record { users = users; block_cache = new 10 }

run_quiet : IsQuietRun sv 10 run
run_quiet = record { of_single = λ c r. r; of_batch = λ reqs. tt }

-- The block comes from the peer, and stays in the cache.
abbrev after : State
after = record {
  users = users;
  block_cache = record {
    max_bytes = 10;
    inner = record { blocks = (1 ∷ [], 1 ∷ []) ∷ []; order = (1 ∷ []) ∷ []; bytes = 1 };
  };
}

proxy_request-Reach_example : IsReached bc ℕ 10 after.block_cache
unfolding proxy_request login btc_rpc_proxy.Proxy.is_served btc_rpc_proxy.Proxy.post
    btc_rpc_proxy.Proxy.enter btc_rpc_proxy.Proxy.serve btc_rpc_proxy.Proxy.send
    btc_rpc_proxy.Proxy.answer btc_rpc_proxy.Prelude.Text.bytes_eq btc_rpc_proxy.Users.Login.get
    btc_rpc_proxy.Users.Login.credentials btc_rpc_proxy.Users.Login.find
    btc_rpc_proxy.Users.Login.check btc_rpc_proxy.Users.Login.replace
    btc_rpc_proxy.Users.Password.eq btc_rpc_proxy.Users.Password.same_contents
    btc_rpc_proxy.Users.Password.xor_contents btc_rpc_proxy.Prelude.Text.strip_prefix
    btc_rpc_proxy.Prelude.Text.from_utf8 btc_rpc_proxy.Prelude.Text.split_once
    btc_rpc_proxy.Users.Intercept.Dispatch.intercept
    btc_rpc_proxy.Users.Intercept.Dispatch.is_allowed
    btc_rpc_proxy.Users.Intercept.Dispatch.contains btc_rpc_proxy.Users.Intercept.Dispatch.by_params
    btc_rpc_proxy.Users.Intercept.Dispatch.getblock
    btc_rpc_proxy.Users.Intercept.Dispatch.getblock_raw
    btc_rpc_proxy.Users.Intercept.Dispatch.raw_reply btc_rpc_proxy.Users.Intercept.first_param
    btc_rpc_proxy.Users.Intercept.block_verbosity btc_rpc_proxy.Users.Intercept.param
    btc_rpc_proxy.Fetch.Raw.fetch_block_raw btc_rpc_proxy.Cache.get btc_rpc_proxy.Cache.new
    btc_rpc_proxy.Cache.Dict.lookup btc_rpc_proxy.Fetch.Raw.fetch_block_from_self
    btc_rpc_proxy.Client.Rpc.into_result btc_rpc_proxy.Fetch.Raw.is_pruned
    btc_rpc_proxy.Fetch.Raw.is_misc btc_rpc_proxy.Fetch.Peer.fetch_block_from_peers
    btc_rpc_proxy.Fetch.Peer.fetch_block_from_peer btc_rpc_proxy.Fetch.Peer.verdict
    btc_rpc_proxy.Fetch.Witness.check_witnesses btc_rpc_proxy.Fetch.Witness.has_commitment
    btc_rpc_proxy.Fetch.Witness.has_witness btc_rpc_proxy.Fetch.Raw.from_self
    btc_rpc_proxy.Fetch.Raw.hash_eq btc_rpc_proxy.Fetch.Peer.attempt
    btc_rpc_proxy.Fetch.Peer.receive btc_rpc_proxy.Json.as_u64 btc_rpc_proxy.Prelude.ℕ_discrete
    btc_rpc_proxy.Cache.insert btc_rpc_proxy.Cache.enabled btc_rpc_proxy.Cache.store
    btc_rpc_proxy.Cache.evict btc_rpc_proxy.Client.Single.send_single
    btc_rpc_proxy.Client.Reply.into_response_to btc_rpc_proxy.Client.Rpc.is_notification
    btc_rpc_proxy.Client.Rpc.is_v2 btc_rpc_proxy.Client.Reply.into_reply
    btc_rpc_proxy.Cache.Dict.insert btc_rpc_proxy.Cache.Dict.remove btc_rpc_proxy.Proxy.from_slice
    btc_rpc_proxy.Client.Request.deserialize btc_rpc_proxy.Client.Request.serialize
    btc_rpc_proxy.Client.Request.visit_map btc_rpc_proxy.Client.Request.visit_members
    btc_rpc_proxy.Client.Request.request_to btc_rpc_proxy.Serde.write
    btc_rpc_proxy.Client.Request.visit_member btc_rpc_proxy.Client.Request.method_from
    btc_rpc_proxy.Client.Request.params_to btc_rpc_proxy.Client.Request.params_from
proxy_request-Reach_example =
    proxy_request-Reach sv 10 run run_quiet (request (some header)) state
      (after, ok (with_body 200 (1 ∷ []))) here refl

-- A method that the user may not call.
abbrev stop : RpcRequest
stop = record { jsonrpc = none; id = none; method = "stop"; params = array [] }

abbrev sv_stop : Services
sv_stop = record sv { parse = λ body. ok (serialize (single stop)) }

abbrev sv_batch : Services
sv_batch = record sv { parse = λ body. ok (serialize (batch (stop ∷ []))) }

abbrev run_batch : Run ℕ
run_batch = record run { finishing = λ reqs. (0, stop, world) ∷ [] }

abbrev refusal : Result Response String
refusal = into_response to_vec (from_rpc_error not_allowed)

IsPosted-batch :
    IsPosted sv_batch run_batch (request (some header)) state users user (batch (stop ∷ []))
unfolding login btc_rpc_proxy.Proxy.is_served btc_rpc_proxy.Prelude.Text.bytes_eq
    btc_rpc_proxy.Users.Login.get btc_rpc_proxy.Users.Login.credentials
    btc_rpc_proxy.Users.Login.find btc_rpc_proxy.Users.Login.check btc_rpc_proxy.Users.Login.replace
    btc_rpc_proxy.Users.Password.eq btc_rpc_proxy.Users.Password.same_contents
    btc_rpc_proxy.Users.Password.xor_contents btc_rpc_proxy.Prelude.Text.strip_prefix
    btc_rpc_proxy.Prelude.Text.from_utf8 btc_rpc_proxy.Prelude.Text.split_once
    btc_rpc_proxy.Users.Intercept.Dispatch.is_allowed
    btc_rpc_proxy.Users.Intercept.Dispatch.contains
IsPosted-batch = record {
  served = refl;
  posted = refl;
  name = 97 ∷ [];
  known = refl;
  bytes = [];
  received = refl;
  parsed = refl;
}

-- The batch is answered by the refusal.
batch_is_refused :
    proxy_request sv_batch run_batch (request (some header)) state ≡ ok (state, refusal)
unfolding send btc_rpc_proxy.Proxy.answer_all btc_rpc_proxy.Users.Intercept.Dispatch.intercept
    btc_rpc_proxy.Users.Intercept.Dispatch.is_allowed
    btc_rpc_proxy.Users.Intercept.Dispatch.contains into_response
    btc_rpc_proxy.Client.Batch.send_all btc_rpc_proxy.Client.Batch.collect
    btc_rpc_proxy.Client.Batch.try_join btc_rpc_proxy.Client.Batch.send_batch
    btc_rpc_proxy.Client.Batch.exchange btc_rpc_proxy.Client.Batch.try_collect
    mathlib.Core.List.filter_map btc_rpc_proxy.Client.Batch.intercepted_send
batch_is_refused =
    proxy_request-IsPosted sv_batch run_batch (request (some header)) state users user
      (batch (stop ∷ [])) ((tt, tt), tt) IsPosted-batch
    ∙ refl

proxy_request-IsDenied_example :
    (e : RpcError) × (refusal ≡ into_response to_vec (from_rpc_error e))
unfolding btc_rpc_proxy.Users.Intercept.Dispatch.is_allowed
    btc_rpc_proxy.Users.Intercept.Dispatch.contains
proxy_request-IsDenied_example =
    proxy_request-IsDenied sv_batch run_batch (request (some header)) state users user (stop ∷ [])
      (state, refusal) ((tt, tt), tt) IsPosted-batch (inl refl) batch_is_refused

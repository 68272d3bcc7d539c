-- ===== src/Proxy/Written.antt =====
-- proxy.rs: how a request that a client writes is taken.
use btc_rpc_proxy.Prelude.{Result, String, if◌then◌else◌, ◌≡◌, refl, true, some, ok, ◌>>=◌, map_err}
use btc_rpc_proxy.Prelude.Text.{Bytes, codes, bytes_eq}
use btc_rpc_proxy.Client.Rpc.{RpcRequest, from_rpc_error}
use btc_rpc_proxy.Client.Reply.{Response, into_response_to}
use btc_rpc_proxy.Client.Single.{forward}
use btc_rpc_proxy.Users.Intercept.Dispatch.{is_allowed, not_allowed}
use btc_rpc_proxy.Client.Request.{SingleOrBatch, serialize}
use btc_rpc_proxy.Client.Request.Laws.{IsWritten, deserialize-serialize}
use btc_rpc_proxy.Users.Login.{User, Users}
use btc_rpc_proxy.Proxy.{
  Request, State, Services, Run, in_params, unwrap_or, is_served, login, from_slice, send, serve,
  enter, post, proxy_request,
}

from_slice-serialize :
    (sv : Services) (r : SingleOrBatch) (bytes : Bytes)
    → IsWritten r
    → sv.parse bytes ≡ ok (serialize r)
    → from_slice sv bytes ≡ ok r
unfolding from_slice
from_slice-serialize sv r bytes w p = rw (p, deserialize-serialize r w, from_slice) refl

module _ (sv : Services) {R : Type 0} (run : Run R) (request : Request) (s : State) where
  -- A POST by a user whose header is accepted, with a body that is the writing of `r`.
  pub record IsPosted (users : Users) (u : User) (r : SingleOrBatch) : Type 0 where
    pub served : is_served request.path ≡ true
    pub posted : bytes_eq request.method (codes "POST") ≡ true
    pub name : Bytes
    pub known : login sv run request s.users ≡ ok (users, some (name, u))
    pub bytes : Bytes
    pub received : request.body ≡ ok bytes
    pub parsed : sv.parse bytes ≡ ok (serialize r)

  -- A POST on a served path, whose header lets a user in and whose body parses to the writing of
  -- a request or a batch, is processed as that request or batch, on the path of the own wallet
  -- of the user if there is one, and its state and response are those of that; no version may be
  -- a null and no object of parameters may name a key twice.
  pub proxy_request-IsPosted :
      (users : Users) (u : User) (r : SingleOrBatch)
      → IsWritten r
      → IsPosted users u r
      → proxy_request sv run request s
        ≡ map_err in_params
            (send sv run u (unwrap_or u.override_wallet request.path) r s.block_cache)
          >>= λ served. ok (record { users = users; block_cache = served.0 }, served.1)
  unfolding proxy_request post enter serve
  proxy_request-IsPosted users u r w p =
      rw
        (
          p.served,
          p.posted,
          p.known,
          p.received,
          from_slice-serialize sv r p.bytes w p.parsed,
          proxy_request,
          post,
          enter,
          serve,
        )
        refl

  -- The response where the interception has nothing to do.
  abbrev pub passed : User → RpcRequest → Result Response String
  passed u req =
      if is_allowed u req.method
      then forward (sv.forward (unwrap_or u.override_wallet request.path)) req
      else into_response_to sv.to_vec (from_rpc_error not_allowed) req

-- ===== src/Service.antt =====
-- lib.rs, main.rs: the service, from the configuration to the last of the requests. Requests stand
-- in the order in which they end; what others do meanwhile is in the run of each.
pub mod Laws
use btc_rpc_proxy.Prelude.{Option, List, [], ◌∷◌, String, Result, ok, err, ◌>>=◌, map_err}
use btc_rpc_proxy.Client.Reply.{Response}
use btc_rpc_proxy.Proxy.{Request, State, Services, Run, Crash, proxy_request}
use btc_rpc_proxy.Start.Bind.{SocketAddr}
use btc_rpc_proxy.Start.Create.{Config, Crates, StartError, create_state}

pub data Failure : Type 0 where
  cannot_start : StartError → Failure
  cannot_listen : String → Failure
  panicked : Crash → Failure

module _ (sv : Services) {R : Type 0} where
  -- Each request starts on the state that the one before it left, although the program looks up a
  -- block for one while others are under way. A panic ends the list; the program would drop the
  -- connection of that request and go on.
  unfoldable pub serve_all :
      List (Run R × Request) → State → Result (State × List (Result Response String)) Crash
  serve_all [] s = ok (s, [])
  serve_all ((run, request) ∷ rest) s = do
    (s', response) ← proxy_request sv run request s
    (end, responses) ← serve_all rest s'
    ok (end, response ∷ responses)

  -- `bind_tokio` is that of the systemd_socket crate.
  unfoldable pub serve :
      (SocketAddr → Result (Unit {0}) String)
      → List (Run R × Request)
      → State
      → SocketAddr
      → Result (State × List (Result Response String)) Failure
  serve bind_tokio requests state bind_addr = map_err cannot_listen (bind_tokio bind_addr) >>= λ _.
      map_err panicked (serve_all requests state)

  unfoldable pub main :
      Crates
      → (SocketAddr → Result (Unit {0}) String)
      → Config
      → List (Run R × Request)
      → Result (State × List (Result Response String)) Failure
  main k bind_tokio config requests = do
    (started, bind_addr) ← map_err cannot_start (create_state k config)
    serve bind_tokio requests started.shared bind_addr

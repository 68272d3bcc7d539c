-- ===== src/Proxy/Laws.antt =====
-- proxy.rs: who is refused.
use btc_rpc_proxy.Prelude.{◌≡◌, true, false}
use btc_rpc_proxy.Prelude.Text.{codes, bytes_eq}
use btc_rpc_proxy.Client.Reply.{Response}
use btc_rpc_proxy.Users.Login.{Users}
use btc_rpc_proxy.Proxy.{
  Request, State, Services, Run, is_served, not_found, wrong_method, unauthorized,
}

module _ (sv : Services) {R : Type 0} (run : Run R) (request : Request) (s : State) where
  -- The three refusals.
  pub data IsRefusal : Response → Type 0 where
    by_path : is_served request.path ≡ false → IsRefusal not_found
    by_method :
        is_served request.path ≡ true
        → bytes_eq request.method (codes "POST") ≡ false
        → IsRefusal wrong_method
    by_user :
        is_served request.path ≡ true
        → bytes_eq request.method (codes "POST") ≡ true
        → IsRefusal unauthorized

-- ===== src/Fetch/Connect/Laws.antt =====
-- fetch_blocks.rs: which way a connection may take, and in which order its handshake goes.
use btc_rpc_proxy.Prelude.{ℕ, ◌≡◌, List, [], ◌∷◌, ◌++◌, ok}
use btc_rpc_proxy.Prelude.Text.{Bytes}
use btc_rpc_proxy.Fetch.Connect.{Event, sends, flushes, receives, Run, version_message, ver_ack}

-- The run does the steps in order, as far as it gets, and succeeds only at their end.
pub record IsRunOf (all : List Event) (run : Run) : Type 0 where
  pub rest : List Event
  pub in_order : run.0 ++ rest ≡ all
  pub complete : run.1 ≡ ok tt → rest ≡ []

-- The events of a handshake at `now`.
pub greeting : Bytes → ℕ → ℕ → List Event
greeting pkg_version magic now =
    sends (version_message pkg_version now magic)
    ∷ flushes
    ∷ receives
    ∷ receives
    ∷ sends (ver_ack magic)
    ∷ flushes
    ∷ []

-- ===== src/Tests/Connecting.antt =====
-- Connections to peers.
use btc_rpc_proxy.Prelude.{refl, true, false, none, some, List, [], ◌∷◌, Result, ok, err}
use btc_rpc_proxy.Prelude.Text.{codes}
use btc_rpc_proxy.State.Network.{NetworkParams}
use btc_rpc_proxy.Fetch.Connect.{proxied, no_i2p_proxy, route, TorState, Outcomes, connect}
use btc_rpc_proxy.Fetch.Pool.{
  Peer, PeerHandle, RecyclableConnection, Connection, new, handle, recycle, full,
}
use btc_rpc_proxy.Fetch.Pool.Steps.{
  World, Reach, here, after, listed, taken, asked, answered, start, ask, IsWell,
}
use btc_rpc_proxy.Fetch.Pool.InFlight.{Reach-IsWell}

abbrev network : NetworkParams
network = record { magic = 7; default_peer_port = 8333 }

abbrev outcomes : Outcomes
outcomes = record {
  dialled = ok tt;
  now = some 1700000000;
  version_written = ok tt;
  version_flushed = ok tt;
  version_read = ok tt;
  verack_read = err "reset";
  verack_written = ok tt;
  verack_flushed = ok tt;
  finished = true;
}

abbrev tor : TorState
tor = record { proxy = codes "p:9050"; only = false }

abbrev result :
    List btc_rpc_proxy.Fetch.Connect.Event
    × Result (Unit {0}) btc_rpc_proxy.Fetch.Connect.ConnectError
result = connect (codes "1") (some tor) none (ok network) (codes "abc.onion") outcomes

abbrev peer : Peer
peer = new (codes "a:1")

abbrev one_peer : World
one_peer = record start { peers = peer ∷ [] }

abbrev one_handle : World
one_handle = record {
  peers = (handle 0 peer).0 ∷ [];
  handles = (handle 0 peer).1 ∷ [];
  fetching = [];
  next = 0;
}

abbrev connection : RecyclableConnection
connection = record { conn = record { id = 0; addr = codes "a:1"; unanswered = 0 }; send = 0 }

abbrev fetching : World
fetching = record {
  peers = (handle 0 peer).0 ∷ [];
  handles = [];
  fetching = ask connection ∷ [];
  next = 1;
}

abbrev recycled : World
recycled = record {
  peers = record { addr = codes "a:1"; channel = full connection.conn } ∷ [];
  handles = [];
  fetching = [];
  next = 1;
}

recycled-Reach : Reach recycled
unfolding btc_rpc_proxy.Fetch.Pool.connect handle btc_rpc_proxy.Fetch.Pool.try_recv new recycle
    btc_rpc_proxy.Fetch.Pool.try_send
recycled-Reach =
    after
      (after (after (after here (listed start (codes "a:1"))) (taken one_peer [] peer [] refl))
        (asked one_handle [] (handle 0 peer).1 [] (ok tt) connection refl refl))
      (answered fetching [] (ask connection) [] refl)

Reach-IsWell_example : IsWell recycled
Reach-IsWell_example = Reach-IsWell recycled recycled-Reach

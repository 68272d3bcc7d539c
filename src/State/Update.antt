-- ===== src/State/Update.antt =====
-- fetch_blocks.rs: how the list of peers is had from what bitcoind sends.
use btc_rpc_proxy.Prelude.{ℕ, ◌≡◌, refl, some, List, String, Result, ok, map}
use btc_rpc_proxy.Prelude.Text.{Bytes}
use btc_rpc_proxy.Json.{Value, Fields, array, object}
use btc_rpc_proxy.Client.Call.{Transport, IsDelivered, call}
use btc_rpc_proxy.Client.Response.Delivered.{Display, HasResult, answer, Reads, answer-HasResult}
use btc_rpc_proxy.Serde.{from_list}
use btc_rpc_proxy.RpcMethods.{get_peer_info, peers, own_request}
use btc_rpc_proxy.RpcMethods.Results.{peers_from}
use btc_rpc_proxy.RpcMethods.Results.Laws.{ArePeers, peers_from-ArePeers_iff}
use btc_rpc_proxy.State.Peers.{PeerInfo, Peers, updated, usable}

abbrev pub entries_to : List Fields → Value
entries_to entries = array (from_list (map (λ (fs : Fields). object fs) entries))

module _ (d : Display) (to : List PeerInfo → Value) (hash_to : Bytes → Value) where
  -- `Peers::updated`, with the call of bitcoind.
  unfoldable pub updated_by : ℕ → Transport (List PeerInfo) → Result Peers String
  updated_by now t =
      updated now (answer peers_from to d (call t (own_request hash_to get_peer_info peers)))

  -- If bitcoind delivers a body whose result lists objects that are read as these peers, with no
  -- error, whatever else the body and the objects hold and in whatever order, the update of the
  -- list succeeds with the addresses of the usable ones.
  pub updated_by-ArePeers :
      (now : ℕ) (t : Transport (List PeerInfo)) (parse : Bytes → Result Value String) (status : ℕ)
      (body : Bytes) (entries : List Fields) (ps : List PeerInfo)
      → Reads peers_from to d parse t
      → IsDelivered t (own_request hash_to get_peer_info peers) status body
      → HasResult parse body (entries_to entries)
      → ArePeers entries ps
      → updated_by now t ≡ ok (record { fetched = some now; peers = usable ps })
  unfolding updated_by updated
  updated_by-ArePeers now t parse status body entries ps r s l m =
      rw
        (
          answer-HasResult peers_from to d parse t (own_request hash_to get_peer_info peers) status
              body (entries_to entries) ps r s l (λ e. absurd (cc))
              ((peers_from-ArePeers_iff entries ps).1 m),
          updated_by,
        )
        refl

-- ===== src/Tests/Settings.antt =====
-- What is taken from bitcoind and kept.
use btc_rpc_proxy.Prelude.{
  ℕ, ◌≡◌, refl, ◌⊎◌, false, none, some, List, [], ◌∷◌, ◌++◌, String, Result, ok, err, All,
}
use btc_rpc_proxy.Prelude.Text.{Bytes}
use btc_rpc_proxy.Client.Auth.{AuthSource, cookie_file, FileSeen, try_load, try_load_again}
use btc_rpc_proxy.State.Network.{
  NetworkParams, BlockchainInfo, ParamsError, network_params, network_params_again,
}
use btc_rpc_proxy.State.Peers.{PeerInfo, Peers, IsSelected, handed, get_peers, get_peers-IsSelected}

abbrev file : Bytes → FileSeen
file text = record { modified = ok 4; contents = ok text }

abbrev loaded : AuthSource × Result Bytes String
loaded = try_load (λ s. s) (λ s. ok (1 ∷ [])) (file (97 ∷ [])) (cookie_file none)

try_load_again_example :
    try_load (λ s. s) (λ s. ok (1 ∷ [])) (file []) loaded.0 ≡ (loaded.0, ok (1 ∷ []))
unfolding try_load btc_rpc_proxy.Client.Auth.load btc_rpc_proxy.Client.Auth.load_from_file
try_load_again_example =
    try_load_again (λ s. s) (λ s. ok (1 ∷ [])) (file (97 ∷ [])) (file []) (cookie_file none)
      (1 ∷ []) refl refl

abbrev pub sha256d : Bytes → Bytes
sha256d bs = 255 ∷ 255 ∷ 255 ∷ 255 ∷ []

abbrev pub var_int : ℕ → Bytes
var_int n = n ∷ []

abbrev signet : BlockchainInfo
signet = record { chain = "signet"; signet_challenge = some [] }

network_params_again_example :
    ((p : NetworkParams) × (network_params sha256d var_int (ok signet) none ≡ (some p, ok p))
      × (network_params sha256d var_int (err "down") (some p) ≡ (some p, ok p)))
    ⊎ ((e : ParamsError) × (network_params sha256d var_int (ok signet) none ≡ (none, err e)))
network_params_again_example = network_params_again sha256d var_int (ok signet) (err "down") none

abbrev infos : List PeerInfo
infos =
    record { addr = "a"; servicesnames = "NETWORK" ∷ "WITNESS" ∷ []; inbound = false }
    ∷ record { addr = "b"; servicesnames = "WITNESS" ∷ []; inbound = false }
    ∷ []

abbrev no_peers : Peers
no_peers = record { fetched = none; peers = [] }

get_peers-IsSelected_example :
    All (IsSelected (infos ++ [])) (get_peers 9 3 false (ok infos) no_peers).0.peers
    × All (IsSelected (infos ++ [])) (handed (get_peers 9 3 false (ok infos) no_peers).1)
get_peers-IsSelected_example = get_peers-IsSelected [] no_peers tt 9 3 false (ok infos)

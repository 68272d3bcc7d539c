-- ===== src/RpcMethods/Results.antt =====
-- rpc_methods.rs: the results of the methods, as serde derives their code. A `usize` has 64 bits.
pub mod Laws
use btc_rpc_proxy.Prelude.{ℕ, Bool, Option, List, String, Result, ok, err, ◌>>=◌}
use btc_rpc_proxy.Prelude.Int.{ℤ}
use btc_rpc_proxy.Prelude.Text.{Bytes}
use btc_rpc_proxy.Json.{Value, Fields, bool, string, object, from_u64}
use btc_rpc_proxy.Util.{Either}
use btc_rpc_proxy.Fetch.Block.{BlockHash, Txid}
use btc_rpc_proxy.Serde.{
  DecodeError, invalid_type, Codec, Struct, no_fields, with, Values, from_value, read_flat, write,
  write_flat,
}
use btc_rpc_proxy.Serde.Codecs.{
  required, optional, string_from, bool_from, unsigned_from, signed_from, signed_to, list_from,
  list_to, set_from, hex_from, either_from,
}
use btc_rpc_proxy.State.Peers.{PeerInfo}
use btc_rpc_proxy.State.Network.{BlockchainInfo}

-- What other crates read and write: the hashes of bitcoin, a `f64` by its 64 bits, and the digits of
-- hex.
pub record Crates : Type 0 where
  pub hash_from : Value → Result Bytes DecodeError
  pub hash_to : Bytes → Value
  pub float_from : Value → Result ℕ DecodeError
  pub float_to : ℕ → Value
  pub decode : String → Result Bytes String
  pub encode : Bytes → String

-- The three fields, of which only these are read.
abbrev pub peer_info : Struct
peer_info = with "addr" String (required string_from string) (
    with "servicesnames" (List String) (required set_from (list_to string))
      (with "inbound" Bool (required bool_from bool) no_fields))

abbrev pub peer_info_of : Values peer_info → PeerInfo
peer_info_of (addr, (servicesnames, (inbound, _))) = record {
  addr = addr;
  servicesnames = servicesnames;
  inbound = inbound;
}

abbrev pub peer_info_values : PeerInfo → Values peer_info
peer_info_values p = (p.addr, (p.servicesnames, (p.inbound, tt)))

unfoldable pub peer_info_from : Value → Result PeerInfo DecodeError
peer_info_from v = from_value peer_info v >>= λ w. ok (peer_info_of w)

-- The response of `GetPeerInfo`.
unfoldable pub peers_from : Value → Result (List PeerInfo) DecodeError
peers_from v = list_from peer_info_from v

module _ (x : Crates) where
  -- `HexBytes::serialize`
  abbrev pub hex_to : Bytes → Value
  hex_to b = string (x.encode b)

  abbrev pub blockchain_info : Struct
  blockchain_info =
      with "chain" String (required string_from string)
        (with "signet_challenge" (Option Bytes) (optional (hex_from x.decode) hex_to) no_fields)

  abbrev pub blockchain_info_of : Values blockchain_info → BlockchainInfo
  blockchain_info_of (chain, (signet_challenge, _)) = record {
    chain = chain;
    signet_challenge = signet_challenge;
  }

  abbrev pub blockchain_info_values : BlockchainInfo → Values blockchain_info
  blockchain_info_values i = (i.chain, (i.signet_challenge, tt))

  unfoldable pub blockchain_info_from : Value → Result BlockchainInfo DecodeError
  blockchain_info_from v = from_value blockchain_info v >>= λ w. ok (blockchain_info_of w)

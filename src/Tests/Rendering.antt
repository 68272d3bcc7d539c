-- ===== src/Tests/Rendering.antt =====
-- Results of bitcoind as they are read and written, and a verbose `getrawtransaction`.
use btc_rpc_proxy.Prelude.{
  ℕ, ◌≡◌, ◌≢◌, ◌↔◌, refl, true, false, none, some, List, [], ◌∷◌, ok, err, arith, String, Result,
}
use btc_rpc_proxy.Prelude.Int.{pos, negsuc}
use btc_rpc_proxy.Prelude.Text.{Bytes}
use btc_rpc_proxy.Json.{Value, Fields, end, field, null, bool, string, array, object, from_u64}
use btc_rpc_proxy.Util.{right, left}
use btc_rpc_proxy.Client.Rpc.{RpcResponse}
use btc_rpc_proxy.Serde.{DecodeError, invalid_type, from_list, write}
use btc_rpc_proxy.RpcMethods.Results.{Crates, peer_info, peer_info_values, peers_from, hex_to}
use btc_rpc_proxy.RpcMethods.Blocks.{
  GetBlockHeaderResult, GetBlockResult, block_to, header_to, block_response_from,
  header_response_from,
}
use btc_rpc_proxy.Serde.Matches.{Matches}
use btc_rpc_proxy.RpcMethods.Blocks.Written.{responses_from-to}
use btc_rpc_proxy.State.Peers.{PeerInfo}
use btc_rpc_proxy.Users.Intercept.{Calls, fetch_first}
use btc_rpc_proxy.Users.Intercept.RawTransaction.{with_header}
use btc_rpc_proxy.Tests.Digits.{crates, crates-AreSound}
use btc_rpc_proxy.Tests.Fixture.{sevens}
use btc_rpc_proxy.Tests.Access.{formats, num}

-- The members in another order, with one that the proxy does not know.
abbrev pub peer_object : Fields
peer_object = field "id" (from_u64 7) (
    field "inbound" (bool false) (
      field "servicesnames" (array (from_list (string "NETWORK" ∷ string "WITNESS" ∷ [])))
        (field "addr" (string "203.0.113.9:8333") end)))

abbrev pub peer : PeerInfo
peer = record {
  addr = "203.0.113.9:8333";
  servicesnames = "NETWORK" ∷ "WITNESS" ∷ [];
  inbound = false;
}

-- The object is read as that peer.
peer_object-read : peers_from (array (from_list (object peer_object ∷ []))) ≡ ok (peer ∷ [])
unfolding peers_from btc_rpc_proxy.Serde.Codecs.list_from btc_rpc_proxy.Serde.Codecs.each_from
    btc_rpc_proxy.RpcMethods.Results.peer_info_from btc_rpc_proxy.Serde.from_value
    btc_rpc_proxy.Serde.read btc_rpc_proxy.Serde.visit_all btc_rpc_proxy.Serde.visit
    btc_rpc_proxy.Serde.Codecs.bool_from btc_rpc_proxy.Serde.Codecs.set_from
    btc_rpc_proxy.Serde.Codecs.string_from btc_rpc_proxy.Serde.finish
    btc_rpc_proxy.Serde.Codecs.push_all btc_rpc_proxy.Serde.Codecs.push_new
peer_object-read = refl

pub peer_object-Matches : Matches peer_info (peer_info_values peer) peer_object
unfolding btc_rpc_proxy.Json.member btc_rpc_proxy.Serde.Matches.count
    btc_rpc_proxy.Serde.Codecs.bool_from btc_rpc_proxy.Serde.Codecs.set_from
    btc_rpc_proxy.Serde.Codecs.string_from btc_rpc_proxy.Serde.Codecs.list_from
    btc_rpc_proxy.Serde.Codecs.each_from btc_rpc_proxy.Serde.Codecs.push_all
    btc_rpc_proxy.Serde.Codecs.push_new
peer_object-Matches = (refl, omega arith, (refl, omega arith, (refl, omega arith, tt)))

abbrev hash : Bytes
hash = sevens 32

-- A header that is not on the main chain.
abbrev stale : GetBlockHeaderResult
stale = record {
  hash = hash;
  confirmations = negsuc 0;
  height = 804;
  version = pos 536870912;
  version_hex = none;
  merkleroot = hash;
  time = 1787000000;
  mediantime = none;
  nonce = 1;
  bits = "207fffff";
  difficulty = 0;
  chainwork = 2 ∷ [];
  n_tx = 2;
  previousblockhash = none;
  nextblockhash = none;
}

abbrev stale_block : GetBlockResult
stale_block = record { header = stale; size = 2; strippedsize = some 1; weight = 4; tx = hash ∷ [] }

abbrev calls : Calls
calls = record {
  getblockheader = ok (record { id = none; error = none; result = some (right stale) });
  header_from_null = err "null";
  decoderawtransaction = λ hex. ok (record {
    id = none;
    error = none;
    result = some (object (field "version" (from_u64 2) end));
  });
  decoded_from_null = ok null;
  race = fetch_first;
  decoded_first = true;
}

-- Transaction 5 of block 1, verbose.
abbrev params : List Value
params = num 5 ∷ bool true ∷ num 1 ∷ []

abbrev rendered : Value
rendered = with_header formats "tx" (1 ∷ []) stale (object (field "version" (from_u64 2) end))

abbrev reply : RpcResponse Value
reply = record { id = some (num 0); error = none; result = some rendered }

responses_from-to_example :
    (block_response_from crates (block_to crates stale_block) ≡ ok (right stale_block))
    × (header_response_from crates (header_to crates stale) ≡ ok (right stale))
    × ((b : Bytes)
        → (block_response_from crates (hex_to crates b) ≡ ok (left b))
          × (header_response_from crates (hex_to crates b) ≡ ok (left b)))
responses_from-to_example = responses_from-to crates crates-AreSound stale_block (record {
  header = record {
    hash = refl;
    confirmations = ground arith;
    height = ground arith;
    version = ground arith;
    merkleroot = refl;
    time = ground arith;
    mediantime = tt;
    nonce = ground arith;
    difficulty = refl;
    n_tx = ground arith;
    previousblockhash = tt;
    nextblockhash = tt;
  };
  size = ground arith;
  strippedsize = ground arith;
  weight = ground arith;
  tx = (refl, tt);
})

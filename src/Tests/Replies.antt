-- ===== src/Tests/Replies.antt =====
-- Replies of bitcoind that the proxy reads, and its own that a client reads.
use btc_rpc_proxy.Prelude.{
  none, ◌≡◌, refl, some, inl, inr, List, [], ◌∷◌, ok, String, Result, arith,
}
use btc_rpc_proxy.Prelude.Int.{negsuc}
use btc_rpc_proxy.Prelude.Text.{Bytes, codes}
use btc_rpc_proxy.Json.{Value, Fields, end, field, null, string, array, object, from_u64, member}
use btc_rpc_proxy.Client.Rpc.{from_rpc_error}
use btc_rpc_proxy.Client.Request.{value_from}
use btc_rpc_proxy.Client.Reply.{into_reply}
use btc_rpc_proxy.Client.Call.{Transport}
use btc_rpc_proxy.Client.Response.{response_from, from_slice}
use btc_rpc_proxy.Client.Response.Laws.{into_reply-read, seen_reply}
use btc_rpc_proxy.Serde.{from_list}
use btc_rpc_proxy.Serde.Matches.{count}
use btc_rpc_proxy.RpcMethods.Results.{peers_from}
use btc_rpc_proxy.State.Peers.{PeerInfo, usable}
use btc_rpc_proxy.Client.Response.Delivered.{Display}
use btc_rpc_proxy.State.Update.{updated_by, updated_by-ArePeers}
use btc_rpc_proxy.State.Chain.{IsChain, IsKept, network_params_by, network_params_by-IsChain}
use btc_rpc_proxy.State.Network.{BlockchainInfo}
use btc_rpc_proxy.RpcMethods.Results.{blockchain_info_from}
use btc_rpc_proxy.Tests.Digits.{crates}
use btc_rpc_proxy.Tests.Settings.{sha256d, var_int}
use btc_rpc_proxy.Tests.Access.{request}
use btc_rpc_proxy.Tests.Rendering.{peer_object, peer, peer_object-Matches}

abbrev display : Display
display = record {
  decode_error = λ e. "decode";
  rpc_error = λ e. "rpc";
  client_error = λ e. "client";
}

abbrev peers_to : List PeerInfo → Value
peers_to ps = null

-- What bitcoind sends, with its version.
abbrev listing : Fields
listing = field "jsonrpc" (string "2.0") (
    field "result" (array (from_list (object peer_object ∷ [])))
      (field "error" null (field "id" (from_u64 1) end)))

abbrev parse : Bytes → Result Value String
parse body = ok (object listing)

abbrev transport : Transport (List PeerInfo)
transport = record {
  try_load = ok (codes "Basic a");
  to_string = λ req. ok (codes "{}");
  build = λ auth text. ok text;
  request = λ built. ok (200, ok (codes "3"));
  from_slice = λ body. from_slice peers_from peers_to parse display.decode_error body;
}

updated_by-ArePeers_example :
    updated_by display peers_to (λ h. null) 5 transport
    ≡ ok (record { fetched = some 5; peers = usable (peer ∷ []) })
unfolding member count
updated_by-ArePeers_example =
    updated_by-ArePeers display peers_to (λ h. null) 5 transport parse 200 (codes "3")
      (peer_object ∷ []) (peer ∷ []) (λ body. refl)
      (record {
        auth = codes "Basic a";
        text = codes "{}";
        built = codes "{}";
        loaded = refl;
        written = refl;
        posted = refl;
        answered = refl;
      })
      (record {
        fields = listing;
        parsed = refl;
        id_once = omega arith;
        no_error = inr refl;
        error_once = omega arith;
        result = refl;
        result_once = omega arith;
      })
      (peer_object-Matches, tt)

into_reply-read_example :
    response_from value_from
      (λ v. v)
      (into_reply
        (from_rpc_error (record { code = negsuc 0; message = "off"; status = some 403 }))
        (request "getblock" []))
    ≡ ok (
        seen_reply
          (from_rpc_error (record { code = negsuc 0; message = "off"; status = some 403 }))
          (request "getblock" []))
into_reply-read_example =
    into_reply-read
      (from_rpc_error (record { code = negsuc 0; message = "off"; status = some 403 }))
      (request "getblock" []) (ground arith, refl)

-- The reply of a node on testnet4, which has no challenge.
abbrev testnet4 : Fields
testnet4 = field "blocks" (from_u64 0) (field "chain" (string "testnet4") end)

abbrev chain_reply : Fields
chain_reply = field "id" null (field "result" (object testnet4) end)

abbrev chain_parse : Bytes → Result Value String
chain_parse body = ok (object chain_reply)

abbrev info : BlockchainInfo
info = record { chain = "testnet4"; signet_challenge = none }

abbrev chain_to : BlockchainInfo → Value
chain_to i = null

abbrev chain_transport : Transport BlockchainInfo
chain_transport = record {
  try_load = ok (codes "Basic a");
  to_string = λ req. ok (codes "{}");
  build = λ auth text. ok text;
  request = λ built. ok (200, ok (codes "3"));
  from_slice = λ body.
      from_slice (blockchain_info_from crates) chain_to chain_parse display.decode_error body;
}

network_params_by-IsChain_example :
    IsKept
      (network_params_by display crates chain_to sha256d var_int chain_transport none)
      (ok (record { magic = 0x283F161C; default_peer_port = 48333 }))
unfolding member count btc_rpc_proxy.Serde.Codecs.string_from
network_params_by-IsChain_example =
    network_params_by-IsChain display crates chain_to sha256d var_int chain_transport chain_parse
      200 (codes "3") testnet4 info (ok (record { magic = 0x283F161C; default_peer_port = 48333 }))
      (λ body. refl)
      (record {
        auth = codes "Basic a";
        text = codes "{}";
        built = codes "{}";
        loaded = refl;
        written = refl;
        posted = refl;
        answered = refl;
      })
      (record {
        fields = chain_reply;
        parsed = refl;
        id_once = omega arith;
        no_error = inl refl;
        error_once = omega arith;
        result = refl;
        result_once = omega arith;
      })
      (refl, omega arith, (refl, omega arith, tt))
      (λ bs. (omega arith, (omega arith, (omega arith, (omega arith, tt))))) (IsChain.testnet4 refl)

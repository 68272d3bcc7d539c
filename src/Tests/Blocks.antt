-- ===== src/Tests/Blocks.antt =====
-- A `getblock` that the proxy answers.
use btc_rpc_proxy.Prelude.{ℕ, ◌≡◌, refl, false, none, some, [], ◌∷◌, ok, err, String}
use btc_rpc_proxy.Json.{Value, string}
use btc_rpc_proxy.Cache.{new}
use btc_rpc_proxy.Client.Rpc.{RpcResponse}
use btc_rpc_proxy.Fetch.Raw.Reach.{here}
use btc_rpc_proxy.Users.Intercept.RawTransaction.{Answered}
use btc_rpc_proxy.Users.Intercept.Dispatch.{getblock}
use btc_rpc_proxy.Users.Intercept.Blocks.{IsBlockReply, getblock_sound}
use btc_rpc_proxy.Tests.Fixture.{bc, outside}
use btc_rpc_proxy.Tests.Access.{formats, no_calls, num, request}

abbrev answered : Answered
answered =
    elim (getblock bc formats no_calls outside (λ c. c) (request "getblock" (num 1 ∷ num 0 ∷ []))
      (num 1 ∷ num 0 ∷ []) (new 10)) [ ok a ↦ a | err e ↦ (new 10, ok none) ]

abbrev reply : RpcResponse Value
reply = record {
  id = some (num 0);
  error = none;
  result = some (string (formats.crates.encode (1 ∷ [])));
}

getblock_sound_example :
    IsBlockReply bc outside
      (λ c. c)
      formats
      no_calls
      (1 ∷ [])
      (string (formats.crates.encode (1 ∷ [])))
      false
unfolding getblock btc_rpc_proxy.Users.Intercept.param btc_rpc_proxy.Users.Intercept.first_param
    btc_rpc_proxy.Users.Intercept.block_verbosity
    btc_rpc_proxy.Users.Intercept.Dispatch.getblock_raw
    btc_rpc_proxy.Users.Intercept.Dispatch.raw_reply btc_rpc_proxy.Fetch.Raw.fetch_block_raw
    btc_rpc_proxy.Cache.get btc_rpc_proxy.Cache.new btc_rpc_proxy.Cache.Dict.lookup
    btc_rpc_proxy.Fetch.Raw.fetch_block_from_self btc_rpc_proxy.Client.Rpc.into_result
    btc_rpc_proxy.Fetch.Raw.is_pruned btc_rpc_proxy.Fetch.Raw.is_misc
    btc_rpc_proxy.Fetch.Peer.fetch_block_from_peers btc_rpc_proxy.Fetch.Peer.fetch_block_from_peer
    btc_rpc_proxy.Fetch.Peer.verdict btc_rpc_proxy.Fetch.Witness.check_witnesses
    btc_rpc_proxy.Fetch.Witness.has_commitment btc_rpc_proxy.Fetch.Witness.has_witness
    btc_rpc_proxy.Fetch.Raw.from_self btc_rpc_proxy.Fetch.Raw.hash_eq
    btc_rpc_proxy.Fetch.Peer.attempt btc_rpc_proxy.Fetch.Peer.receive btc_rpc_proxy.Json.as_u64
    btc_rpc_proxy.Prelude.ℕ_discrete btc_rpc_proxy.Cache.insert btc_rpc_proxy.Cache.enabled
    btc_rpc_proxy.Prelude.Text.bytes_eq
getblock_sound_example =
    getblock_sound bc outside (λ c. c) formats no_calls (request "getblock" (num 1 ∷ num 0 ∷ []))
      (num 1 ∷ num 0 ∷ []) false (num 1) (1 ∷ []) 10 (new 10) answered reply
      (string (formats.crates.encode (1 ∷ []))) here refl refl refl refl refl refl

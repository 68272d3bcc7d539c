-- ===== src/Tests/Fetching.antt =====
-- Blocks that are fetched and checked.
use btc_rpc_proxy.Prelude.{
  ℕ, ◌+◌, ◌<◌, ◌≡◌, ◌≢◌, ◌↔◌, ◌⊎◌, inl, inr, refl, Bool, true, false, Option, none, some, List, [],
  ◌∷◌, ◌++◌, map, String, Result, ok, err, arith, All,
}
use btc_rpc_proxy.Prelude.Text.{Bytes}
use btc_rpc_proxy.Cache.{BlockCache, usize_mod, new}
use btc_rpc_proxy.Fetch.Block.{Block, BlockHash}
use btc_rpc_proxy.Fetch.Witness.{
  commitment_magic, zeros, check_witnesses, has_commitment, has_witness,
}
use btc_rpc_proxy.Fetch.Witness.Outputs.{IsPlain, here, said}
use btc_rpc_proxy.Fetch.Witness.Laws.{IsCommitted, check_witnesses_iff}
use btc_rpc_proxy.Fetch.Witness.Stripped.{strip_tx, strip, check_witnesses-strip}
use btc_rpc_proxy.Fetch.Peer.{
  NetworkMessage, block, ping, other, Sent, get_data, pong, fetch_block_from_peer,
  fetch_block_from_peers, attempt,
}
use btc_rpc_proxy.Fetch.Peer.Laws.{
  IsVerified, pongs, fetch_block_from_peer_found, fetch_block_from_peers_found,
}
use btc_rpc_proxy.Fetch.Raw.{hash_eq, fetch_block_from_self, fetch_block_raw, from_self}
use btc_rpc_proxy.Fetch.Raw.Reach.{
  IsChecked, Reach, here, next, ends, Reach-IsChecked, fetch_block_raw_sound,
}
use btc_rpc_proxy.Tests.Fixture.{
  bc, plain_block, segwit_block, coinbase, spending, sevens, writes, good_peer, bad_peer, outside,
}

check_witnesses_iff_example :
    (check_witnesses bc segwit_block ≡ some true)
    ↔ (IsPlain segwit_block ⊎ IsCommitted bc segwit_block)
check_witnesses_iff_example = check_witnesses_iff bc segwit_block

abbrev hash : Bytes
hash = sevens 16 ++ zeros 16

committed : IsCommitted bc segwit_block
committed = record {
  coinbase = coinbase;
  txs = spending ∷ [];
  first = record { witness = zeros 32 ∷ []; rest = [] };
  inputs = [];
  output = record { script_pubkey = commitment_magic ++ hash; rest = [] };
  rest = hash;
  root = sevens 32;
  reserved = zeros 32;
  starts = refl;
  coin_base = refl;
  has_input = refl;
  last = here [] (hash, record { magic = refl; long = omega arith }) tt;
  script = record { magic = refl; long = omega arith };
  rooted = refl;
  reserves = said (zeros 32) refl;
  matches = refl;
}

check_witnesses-strip_example :
    (check_witnesses bc segwit_block ≡ some true)
    × (check_witnesses bc (strip segwit_block) ≡ some false)
unfolding committed strip_tx
check_witnesses-strip_example =
    check_witnesses-strip bc segwit_block committed (zeros 32) (λ tx. refl) refl
      (λ e. absurd (ground arith)) (λ e. absurd (ground arith))

plain-IsVerified : IsVerified bc (1 ∷ []) plain_block
unfolding check_witnesses has_commitment has_witness
plain-IsVerified = record { hashed = refl; merkle = refl; witnessed = refl }

abbrev traffic : List NetworkMessage
traffic = other ∷ ping 3 ∷ []

fetch_block_from_peer_found_example :
    fetch_block_from_peer bc writes
      (1 ∷ [])
      (ok 5)
      (map ok traffic ++ (ok (block plain_block) ∷ []))
    ≡ (get_data (1 ∷ []) ∷ pong 3 ∷ [], ok plain_block)
unfolding pongs
fetch_block_from_peer_found_example =
    fetch_block_from_peer_found bc writes (1 ∷ []) 5 traffic [] plain_block refl (tt, (refl, tt))
      plain-IsVerified

fetch_block_from_peers_found_example :
    (d : Block) × (fetch_block_from_peers bc (1 ∷ []) ((bad_peer ∷ []) ++ (good_peer ∷ []))
      ≡ some d)
    × IsVerified bc (1 ∷ []) d
unfolding attempt fetch_block_from_peer check_witnesses btc_rpc_proxy.Fetch.Peer.verdict
    has_commitment btc_rpc_proxy.Prelude.Text.bytes_eq has_witness
fetch_block_from_peers_found_example =
    fetch_block_from_peers_found bc (1 ∷ []) (bad_peer ∷ []) [] good_peer plain_block refl

-- A cache after one request that found nothing and fetched the block.
abbrev fetched : BlockCache BlockHash
fetched = (from_self bc outside (1 ∷ []) (new 100)).0

fetched_reached : Reach bc ℕ (new 100) fetched
fetched_reached = next here (ends (new 100) (1 ∷ []) outside)

Reach-IsChecked_example : IsChecked bc (1 ∷ []) (1 ∷ [])
unfolding from_self fetch_block_from_self check_witnesses fetch_block_from_peers hash_eq
    btc_rpc_proxy.Cache.Dict.lookup btc_rpc_proxy.Client.Rpc.into_result
    btc_rpc_proxy.Fetch.Raw.is_pruned btc_rpc_proxy.Fetch.Raw.is_misc fetch_block_from_peer
    btc_rpc_proxy.Fetch.Peer.verdict has_commitment btc_rpc_proxy.Prelude.Text.bytes_eq has_witness
    btc_rpc_proxy.Cache.insert new btc_rpc_proxy.Cache.Dict.insert btc_rpc_proxy.Prelude.ℕ_discrete
Reach-IsChecked_example = Reach-IsChecked bc 100 fetched fetched_reached (1 ∷ []) (1 ∷ []) refl

fetch_block_raw_sound_example :
    (fetch_block_from_self outside ≡ ok (some (1 ∷ []))) ⊎ IsChecked bc (1 ∷ []) (1 ∷ [])
unfolding fetch_block_raw fetch_block_from_self check_witnesses fetch_block_from_peers
    btc_rpc_proxy.Cache.get new btc_rpc_proxy.Cache.Dict.lookup btc_rpc_proxy.Client.Rpc.into_result
    btc_rpc_proxy.Fetch.Raw.is_pruned btc_rpc_proxy.Fetch.Raw.is_misc fetch_block_from_peer
    btc_rpc_proxy.Fetch.Peer.verdict has_commitment btc_rpc_proxy.Prelude.Text.bytes_eq has_witness
fetch_block_raw_sound_example =
    fetch_block_raw_sound bc outside (1 ∷ []) (λ c. c) 100 (new 100) (1 ∷ []) here refl

-- ===== src/Fetch/Peer.antt =====
-- fetch_blocks.rs: one block asked of one peer, and of all of them. What the connection delivers
-- until it fails is a list; when the list ends, nothing arrives before the timeout.
pub mod Laws
use btc_rpc_proxy.Prelude.{
  ℕ, ◌≡◌, Bool, true, false, Option, none, some, List, [], ◌∷◌, String, Result, ok, err,
  if◌then◌else◌,
}
use btc_rpc_proxy.Prelude.Text.{Bytes, bytes_eq}
use btc_rpc_proxy.Fetch.Block.{Block, BlockHash, Bitcoin}
use btc_rpc_proxy.Fetch.Witness.{check_witnesses}

pub data NetworkMessage : Type 0 where
  block : Block → NetworkMessage
  ping : ℕ → NetworkMessage
  other : NetworkMessage

pub data Sent : Type 0 where
  get_data : BlockHash → Sent
  pong : ℕ → Sent

pub data Failure : Type 0 where
  io : String → Failure
  timeout : Failure
  witness_check : Failure
  merkle_check : Failure
  wrong_hash : BlockHash → Failure
  panicked : Failure

module _ (bc : Bitcoin) where
  judge : Block → BlockHash → Bool → Option Bool → Result Block Failure
  judge b hash merkle none = err panicked
  judge b hash merkle (some witness) =
      if bytes_eq (bc.block_hash b) hash
      then (if merkle then (if witness then ok b else err witness_check) else err merkle_check)
      else err (wrong_hash (bc.block_hash b))

  -- The three checks on a block that arrives.
  unfoldable pub verdict : BlockHash → Block → Result Block Failure
  unfolding judge
  verdict hash b = judge b hash (bc.check_merkle_root b) (check_witnesses bc b)

  -- `write` is the outcome of writing a message to the connection.
  module _ (write : Sent → Result (Unit {0}) String) (hash : BlockHash) where
    -- The loop: what is sent in it, and how it ends.
    unfoldable pub receive : List (Result NetworkMessage String) → List Sent × Result Block Failure
    receive [] = ([], err timeout)
    receive (err e ∷ rest) = ([], err (io e))
    receive (ok (block b) ∷ rest) = ([], verdict hash b)
    receive (ok (ping p) ∷ rest) =
        let (sent, result) = receive rest in
        elim (write (pong p)) [ ok _ ↦ (pong p ∷ sent, result) | err e ↦ (pong p ∷ [], err (io e)) ]
    receive (ok other ∷ rest) = receive rest

    -- `magic` is what `network_params` answers.
    unfoldable pub fetch_block_from_peer :
        Result ℕ String → List (Result NetworkMessage String) → List Sent × Result Block Failure
    unfolding receive
    fetch_block_from_peer (err e) incoming = ([], err (io e))
    fetch_block_from_peer (ok magic) incoming =
        let (sent, result) = receive incoming in
        elim (write (get_data hash)) [
          | ok _ ↦ (get_data hash ∷ sent, result)
          | err e ↦ (get_data hash ∷ [], err (io e))
        ]

-- What happens when one peer is asked: whether the connection comes about, what `network_params`
-- answers, the outcome of each write, and what arrives.
pub record Conversation : Type 0 where
  pub connect : Result (Unit {0}) String
  pub magic : Result ℕ String
  pub write : Sent → Result (Unit {0}) String
  pub incoming : List (Result NetworkMessage String)

module _ (bc : Bitcoin) (hash : BlockHash) where
  unfoldable pub attempt : Conversation → Result Block Failure
  attempt c = elim c.connect [
    | err e ↦ err (io e)
    | ok _ ↦ (fetch_block_from_peer bc c.write hash c.magic c.incoming).1
  ]

  -- The first block that an attempt returns; the attempts stand in the order in which they end.
  unfoldable pub fetch_block_from_peers : List Conversation → Option Block
  unfolding attempt
  fetch_block_from_peers [] = none
  fetch_block_from_peers (c ∷ peers) =
      let rest = fetch_block_from_peers peers in elim (attempt c) [ ok b ↦ some b | err e ↦ rest ]

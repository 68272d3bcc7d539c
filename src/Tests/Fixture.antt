-- ===== src/Tests/Fixture.antt =====
-- Small stand-ins for the bitcoin crate and for what happens outside, with a block and its peers.
use btc_rpc_proxy.Prelude.{
  ℕ, zero, suc, take, true, Option, none, some, List, [], ◌∷◌, ◌++◌, String, Result, ok, err,
}
use btc_rpc_proxy.Prelude.Text.{Bytes}
use btc_rpc_proxy.Client.Rpc.{RpcError, misc_error_code, prune_error_message}
use btc_rpc_proxy.Fetch.Block.{TxIn, Transaction, Block, Bitcoin}
use btc_rpc_proxy.Fetch.Peer.{block, ping, other, Sent, Conversation}
use btc_rpc_proxy.Fetch.Raw.{Outside}
use btc_rpc_proxy.Fetch.Witness.{commitment_magic, zeros}

abbrev pub sevens : ℕ → Bytes
sevens n = elim n [ zero ↦ [] | suc (n → ih) ↦ 7 ∷ ih ]

-- A witness hash that tells a witness from none.
abbrev pub witness_hash : List TxIn → Bytes
witness_hash [] = zeros 32
witness_hash (i ∷ is) = elim i.witness [ [] ↦ zeros 32 | _ ∷ _ ↦ sevens 32 ]

-- The root is the second leaf.
abbrev pub second_leaf : List Bytes → Option Bytes
second_leaf [] = none
second_leaf (a ∷ []) = some a
second_leaf (a ∷ b ∷ l) = some b

-- The block that a header's one byte stands for.
abbrev pub decode : Bytes → Option Block
decode bytes =
    some
      (record { header = bytes; txdata = record { input = []; output = []; rest = 5 ∷ [] } ∷ [] })

abbrev pub bc : Bitcoin
bc = record {
  block_hash = λ b. b.header;
  check_merkle_root = λ b. true;
  is_coin_base = λ tx. true;
  wtxid = λ tx. witness_hash tx.input;
  txid = λ tx. tx.rest;
  bitcoin_merkle_root = second_leaf;
  commitment = λ root reserved. take 16 root ++ take 16 reserved;
  consensus_encode = λ b. ok b.header;
  consensus_decode = decode;
}

abbrev pub plain_block : Block
plain_block = record { header = 1 ∷ []; txdata = [] }

abbrev pub coinbase : Transaction
coinbase = record {
  input = record { witness = zeros 32 ∷ []; rest = [] } ∷ [];
  output = record { script_pubkey = commitment_magic ++ (sevens 16 ++ zeros 16); rest = [] } ∷ [];
  rest = [];
}

abbrev pub spending : Transaction
spending = record {
  input = record { witness = (9 ∷ []) ∷ []; rest = [] } ∷ [];
  output = [];
  rest = 3 ∷ [];
}

-- A block with a commitment, and a transaction with a witness.
abbrev pub segwit_block : Block
segwit_block = record { header = 2 ∷ []; txdata = coinbase ∷ spending ∷ [] }

abbrev pub writes : Sent → Result (Unit {0}) String
writes m = ok tt

-- A peer that pings and then sends the block.
abbrev pub good_peer : Conversation
good_peer = record {
  connect = ok tt;
  magic = ok 5;
  write = writes;
  incoming = ok other ∷ ok (ping 3) ∷ ok (block plain_block) ∷ [];
}

-- A peer that cannot be reached.
abbrev pub bad_peer : Conversation
bad_peer = record { connect = err "refused"; magic = ok 5; write = writes; incoming = [] }

abbrev pub pruned_error : RpcError
pruned_error = record { code = misc_error_code; message = prune_error_message; status = none }

-- bitcoind has pruned the block, and one of two peers has it.
abbrev pub outside : Outside ℕ
outside = record {
  getblock = ok (record { id = none; error = some pruned_error; result = none });
  from_null = err "null";
  get_peers = ok tt;
  conversations = bad_peer ∷ good_peer ∷ [];
}

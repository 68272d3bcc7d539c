-- ===== src/Fetch/Block.antt =====
-- The blocks of the bitcoin crate, with the fields that the code reads, and the functions of that
-- crate that it calls. `rest` stands for the fields that the code does not read.
use btc_rpc_proxy.Prelude.{Bool, Option, List, Result, String}
use btc_rpc_proxy.Prelude.Text.{Bytes}

pub record TxIn : Type 0 where
  pub witness : List Bytes
  pub rest : Bytes

pub record TxOut : Type 0 where
  pub script_pubkey : Bytes
  pub rest : Bytes

pub record Transaction : Type 0 where
  pub input : List TxIn
  pub output : List TxOut
  pub rest : Bytes

pub record Block : Type 0 where
  pub header : Bytes
  pub txdata : List Transaction

-- `BlockHash` and `Txid`, by their bytes.
abbrev pub BlockHash : Type 0
BlockHash = Bytes

abbrev pub Txid : Type 0
Txid = Bytes

-- `commitment root reserved` is the hash that a coinbase commits to.
pub record Bitcoin : Type 0 where
  pub block_hash : Block → BlockHash
  pub check_merkle_root : Block → Bool
  pub is_coin_base : Transaction → Bool
  pub wtxid : Transaction → Bytes
  pub txid : Transaction → Txid
  pub bitcoin_merkle_root : List Bytes → Option Bytes
  pub commitment : Bytes → Bytes → Bytes
  pub consensus_encode : Block → Result Bytes String
  pub consensus_decode : Bytes → Option Block

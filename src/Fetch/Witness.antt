-- ===== src/Fetch/Witness.antt =====
-- fetch_blocks.rs: `check_witnesses` and `check_witness_commitment`.
pub mod Outputs
pub mod Laws
pub mod Stripped
use btc_rpc_proxy.Prelude.{
  ℕ, zero, suc, ◌≡◌, Bool, true, false, not, ◌&&◌, Option, none, some, List, [], ◌∷◌, leb, ltb,
  ◌==◌, if◌then◌else◌, length, take, drop, any, map,
}
use btc_rpc_proxy.Prelude.Text.{Bytes, bytes_eq, starts_with}
use btc_rpc_proxy.Fetch.Block.{TxIn, TxOut, Transaction, Block, Bitcoin}

abbrev pub commitment_magic : Bytes
commitment_magic = 0x6a ∷ 0x24 ∷ 0xaa ∷ 0x21 ∷ 0xa9 ∷ 0xed ∷ []

-- `Witness::is_empty`
abbrev pub is_empty : List Bytes → Bool
is_empty [] = true
is_empty (w ∷ ws) = false

-- An output that commits: long enough, and with the magic in front.
unfoldable pub commits_to : TxOut → Bool
commits_to o = leb 38 (length o.script_pubkey) && bytes_eq (take 6 o.script_pubkey) commitment_magic

-- The output at `rposition`: the last one that commits.
unfoldable pub last_commitment : List TxOut → Option TxOut
last_commitment [] = none
last_commitment (o ∷ os) = elim (last_commitment os) [
  | some found ↦ some found
  | none ↦ if commits_to o then some o else none
]

unfoldable pub has_witness : Block → Bool
has_witness b = any (λ tx. any (λ i. not (is_empty i.witness)) tx.input) b.txdata

unfoldable pub has_commitment : Block → Bool
has_commitment b = elim b.txdata [ [] ↦ false | coinbase ∷ txs ↦ any commits_to coinbase.output ]

abbrev pub zeros : ℕ → Bytes
zeros n = elim n [ zero ↦ [] | suc (n → ih) ↦ 0 ∷ ih ]

-- The salt, from the witness of the coinbase's input.
unfoldable pub reserved_value : List Bytes → Option Bytes
reserved_value [] = some (zeros 32)
reserved_value (w ∷ []) = if length w == 32 then some w else none
reserved_value (w ∷ v ∷ ws) = none

-- `coinbase.input[0].witness`; without an input the code panics, and so does `none`.
unfoldable pub first_witness : Transaction → Option (List Bytes)
first_witness tx = elim tx.input [ [] ↦ none | i ∷ is ↦ some i.witness ]

module _ (bc : Bitcoin) where
  open bc use {is_coin_base, wtxid, bitcoin_merkle_root, commitment}

  -- The leaves of the witness tree: zeros stand for the coinbase.
  unfoldable pub witness_leaves : Block → List Bytes
  witness_leaves b = elim b.txdata [ [] ↦ [] | coinbase ∷ txs ↦ zeros 32 ∷ map wtxid txs ]

  matches_root : TxOut → Bytes → Option Bytes → Option Bool
  matches_root o root none = some false
  matches_root o root (some reserved) =
      some (bytes_eq (take 32 (drop 6 o.script_pubkey)) (commitment root reserved))

  against : TxOut → Transaction → Option Bytes → Option Bool
  unfolding matches_root
  against o coinbase none = some false
  against o coinbase (some root) = elim (first_witness coinbase) [
    | none ↦ none
    | some witness ↦ matches_root o root (reserved_value witness)
  ]

  committed : Block → Transaction → Option TxOut → Option Bool
  unfolding against
  committed b coinbase none = some false
  committed b coinbase (some o) = against o coinbase (bitcoin_merkle_root (witness_leaves b))

  -- `none` is a panic.
  unfoldable pub check_witness_commitment : Block → Option Bool
  unfolding committed
  check_witness_commitment b = elim b.txdata [
    | [] ↦ some false
    | coinbase ∷ txs ↦
        if is_coin_base coinbase
        then committed b coinbase (last_commitment coinbase.output)
        else some false
  ]

  unfoldable pub check_witnesses : Block → Option Bool
  unfolding check_witness_commitment
  check_witnesses b =
      if has_commitment b then check_witness_commitment b else some (not (has_witness b))

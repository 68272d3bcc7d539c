-- ===== src/Fetch/Witness/Stripped.antt =====
-- fetch_blocks.rs, `check_witnesses`: that it catches a peer that strips witnesses.
use btc_rpc_proxy.Prelude.{
  ◌≡◌, refl, sym, ◌∙◌, ◌≢◌, inl, inr, true, false, some, List, [], ◌∷◌, arith, take, drop, map,
  Bool-cases,
}
use btc_rpc_proxy.Prelude.Text.{Bytes, bytes_eq, bytes_eq_iff}
use btc_rpc_proxy.Fetch.Block.{TxIn, Transaction, Block, Bitcoin}
use btc_rpc_proxy.Fetch.Witness.Outputs.{thirty_two_zeros}
use btc_rpc_proxy.Fetch.Witness.{
  has_commitment, zeros, reserved_value, first_witness, witness_leaves, matches_root, against,
  committed, check_witness_commitment, check_witnesses,
}
use btc_rpc_proxy.Fetch.Witness.Laws.{
  IsAccepted, IsCommitted, accepted-has_commitment, IsCommitted-IsAccepted, check_witnesses_iff,
}

-- A transaction without the witnesses of its inputs, and a block of such transactions, as a peer
-- sends that leaves the witnesses out.
abbrev strip_input : TxIn → TxIn
strip_input i = record i { witness = [] }

unfoldable pub strip_tx : Transaction → Transaction
strip_tx tx = record tx { input = map strip_input tx.input }

unfoldable pub strip : Block → Block
strip b = record b { txdata = map strip_tx b.txdata }

first_witness-strip :
    (tx : Transaction) (w : List Bytes)
    → first_witness tx ≡ some w
    → first_witness (strip_tx tx) ≡ some []
unfolding first_witness strip_tx
first_witness-strip tx w h = ground arith

module _ (bc : Bitcoin) where
  open bc use {is_coin_base, wtxid, bitcoin_merkle_root, commitment}

  stripped_rejected :
      (b : Block) (root' : Bytes) (k : IsAccepted bc b)
      → is_coin_base (strip_tx k.coinbase) ≡ true
      → bitcoin_merkle_root (witness_leaves bc (strip b)) ≡ some root'
      → bytes_eq (take 32 (drop 6 k.output.script_pubkey)) (commitment root' (zeros 32)) ≡ false
      → check_witness_commitment bc (strip b) ≡ some false
  unfolding check_witness_commitment committed against matches_root strip reserved_value strip_tx
  stripped_rejected b root' k coin rooted differs =
      rw (k.starts, coin)
        (ground (
          arith,
          strip_last k.coinbase,
          k.last,
          rooted,
          first_witness-strip k.coinbase k.witness k.salted,
          differs,
        ))
    where
      strip_last : (tx : Transaction) → (strip_tx tx).output ≡ tx.output
      strip_last tx = refl

  stripped_leaves :
      (b : Block) (coinbase : Transaction) (txs : List Transaction) (root' : Bytes)
      → b.txdata ≡ coinbase ∷ txs
      → bitcoin_merkle_root (thirty_two_zeros ∷ map wtxid (map strip_tx txs)) ≡ some root'
      → bitcoin_merkle_root (witness_leaves bc (strip b)) ≡ some root'
  unfolding witness_leaves strip
  stripped_leaves b coinbase txs root' e h = rw e h

  stripped-has_commitment : (b : Block) → has_commitment b ≡ true → has_commitment (strip b) ≡ true
  unfolding has_commitment strip strip_tx
  stripped-has_commitment b h = ground arith

  mismatch :
      (s root root' reserved reserved' : Bytes)
      → s ≡ commitment root reserved
      → (commitment root reserved ≡ commitment root' reserved' → root ≡ root')
      → root ≢ root'
      → bytes_eq s (commitment root' reserved') ≡ false
  mismatch s root root' reserved reserved' e apart n =
      elim (Bool-cases (bytes_eq s (commitment root' reserved'))) [
        | inl same ↦
            absurd (n (apart (sym e ∙ (bytes_eq_iff s (commitment root' reserved')).0 same)))
        | inr differs ↦ differs
      ]

  -- A block whose coinbase commits to its witnesses passes, and does not once its witnesses are
  -- taken out, if it then has another witness root, if the commitments to the two roots, with
  -- the salt that the block gives and with zeros, do not collide, and if whether a transaction
  -- is a coinbase does not depend on its witnesses.
  pub check_witnesses-strip :
      (b : Block) (c : IsCommitted bc b) (root' : Bytes)
      → ((tx : Transaction) → is_coin_base (strip_tx tx) ≡ is_coin_base tx)
      → bitcoin_merkle_root (thirty_two_zeros ∷ map wtxid (map strip_tx c.txs)) ≡ some root'
      → c.root ≢ root'
      → (commitment c.root c.reserved ≡ commitment root' thirty_two_zeros → c.root ≡ root')
      → (check_witnesses bc b ≡ some true) × (check_witnesses bc (strip b) ≡ some false)
  unfolding check_witnesses IsCommitted-IsAccepted
  check_witnesses-strip b c root' coin rooted differs apart =
      let a = IsCommitted-IsAccepted bc b c in
      let h = accepted-has_commitment bc b a in
      (
        (check_witnesses_iff bc b).1 (inr c),
        rw (stripped-has_commitment b h, check_witnesses)
            (stripped_rejected b root' a (coin c.coinbase ∙ c.coin_base)
              (stripped_leaves b c.coinbase c.txs root' c.starts rooted)
              (mismatch (take 32 (drop 6 c.output.script_pubkey)) c.root root' c.reserved
                thirty_two_zeros a.matches apart differs)),
      )

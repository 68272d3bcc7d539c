-- ===== src/Fetch/Witness/Laws.antt =====
-- fetch_blocks.rs, `check_witnesses`: what the witness check accepts.
use btc_rpc_proxy.Prelude.{
  ◌≡◌, refl, ◌⊎◌, ◌↔◌, inl, inr, true, some, List, [], ◌∷◌, arith, take, drop, any, map, Bool-cases,
  Option-cases, List-cases, some_inj,
}
use btc_rpc_proxy.Prelude.Text.{Bytes, bytes_eq_iff}
use btc_rpc_proxy.Fetch.Block.{TxIn, TxOut, Transaction, Block, Bitcoin}
use btc_rpc_proxy.Fetch.Witness.Outputs.{
  IsCommitment, IsLast, IsReserved, thirty_two_zeros, IsPlain, IsLast-Commits, has_witness-IsPlain,
  IsPlain-has_commitment, IsPlain-has_witness, last_commitment-IsLast, IsLast-last_commitment,
  reserved_value-IsReserved, IsReserved-reserved_value,
}
use btc_rpc_proxy.Fetch.Witness.{
  commits_to, last_commitment, has_commitment, reserved_value, first_witness, witness_leaves,
  matches_root, against, committed, check_witness_commitment, check_witnesses,
}

last_commitment-any :
    (os : List TxOut) (o : TxOut) → last_commitment os ≡ some o → any commits_to os ≡ true
unfolding last_commitment
last_commitment-any [] o h = absurd (cc)
last_commitment-any (p ∷ os) o h = elim (Option-cases (last_commitment os)) [
  | inr (q, e) ↦ ground (arith, last_commitment-any os q e)
  | inl e ↦ ground arith
]

module _ (bc : Bitcoin) where
  open bc use {is_coin_base, wtxid, bitcoin_merkle_root, commitment}

  -- What the steps of the check find on their way to the comparison.
  pub record IsAccepted (b : Block) : Type 0 where
    pub coinbase : Transaction
    pub txs : List Transaction
    pub output : TxOut
    pub root : Bytes
    pub witness : List Bytes
    pub reserved : Bytes
    pub starts : b.txdata ≡ coinbase ∷ txs
    pub coin_base : is_coin_base coinbase ≡ true
    pub last : last_commitment coinbase.output ≡ some output
    pub rooted : bitcoin_merkle_root (witness_leaves bc b) ≡ some root
    pub salted : first_witness coinbase ≡ some witness
    pub reserves : reserved_value witness ≡ some reserved
    pub matches : take 32 (drop 6 output.script_pubkey) ≡ commitment root reserved

  accepted_sound : (b : Block) → check_witness_commitment bc b ≡ some true → IsAccepted b
  unfolding check_witness_commitment committed against matches_root
  accepted_sound b h = elim (List-cases b.txdata) [
    | inl e ↦ absurd (ground arith)
    | inr (coinbase, txs, e) ↦ elim (Bool-cases (is_coin_base coinbase)) [
      | inr n ↦ absurd (ground arith)
      | inl c ↦ elim (Option-cases (last_commitment coinbase.output)) [
        | inl n ↦ absurd (ground arith)
        | inr (o, l) ↦ elim (Option-cases (bitcoin_merkle_root (witness_leaves bc b))) [
          | inl n ↦ absurd (ground arith)
          | inr (root, r) ↦ elim (Option-cases (first_witness coinbase)) [
            | inl n ↦ absurd (ground arith)
            | inr (w, s) ↦ elim (Option-cases (reserved_value w)) [
              | inl n ↦ absurd (ground arith)
              | inr (v, t) ↦ record {
                coinbase = coinbase;
                txs = txs;
                output = o;
                root = root;
                witness = w;
                reserved = v;
                starts = e;
                coin_base = c;
                last = l;
                rooted = r;
                salted = s;
                reserves = t;
                matches = (bytes_eq_iff _ _).0 (ground arith);
              }
            ]
          ]
        ]
      ]
    ]
  ]

  accepted_complete : (b : Block) → IsAccepted b → check_witness_commitment bc b ≡ some true
  unfolding check_witness_commitment committed against matches_root
  accepted_complete b c = ground (
    arith,
    c.starts,
    c.coin_base,
    c.last,
    c.rooted,
    c.salted,
    c.reserves,
    bytes_eq_iff (take 32 (drop 6 c.output.script_pubkey)) (commitment c.root c.reserved),
    c.matches,
  )

  pub accepted-has_commitment : (b : Block) → IsAccepted b → has_commitment b ≡ true
  unfolding has_commitment
  accepted-has_commitment b c =
      ground (arith, c.starts, last_commitment-any c.coinbase.output c.output c.last)

  -- The coinbase commits to the witnesses of the block: the last of its outputs that commit has
  -- the hash of the witness root and of the salt that the witness of its first input gives.
  pub record IsCommitted (b : Block) : Type 0 where
    pub coinbase : Transaction
    pub txs : List Transaction
    pub first : TxIn
    pub inputs : List TxIn
    pub output : TxOut
    pub rest : Bytes
    pub root : Bytes
    pub reserved : Bytes
    pub starts : b.txdata ≡ coinbase ∷ txs
    pub coin_base : is_coin_base coinbase ≡ true
    pub has_input : coinbase.input ≡ first ∷ inputs
    pub last : IsLast output coinbase.output
    pub script : IsCommitment output.script_pubkey rest
    pub rooted : bitcoin_merkle_root (thirty_two_zeros ∷ map wtxid txs) ≡ some root
    pub reserves : IsReserved first.witness reserved
    pub matches : take 32 rest ≡ commitment root reserved

  IsAccepted-IsCommitted : (b : Block) → IsAccepted b → IsCommitted b
  unfolding witness_leaves first_witness
  IsAccepted-IsCommitted b a = elim (List-cases a.coinbase.input) [
    | inl e ↦ absurd (ground (arith, a.salted))
    | inr (i, is, e) ↦ record {
      coinbase = a.coinbase;
      txs = a.txs;
      first = i;
      inputs = is;
      output = a.output;
      rest = (IsLast-Commits a.coinbase.output l).0;
      root = a.root;
      reserved = a.reserved;
      starts = a.starts;
      coin_base = a.coin_base;
      has_input = e;
      last = l;
      script = (IsLast-Commits a.coinbase.output l).1;
      rooted = rw a.starts at a.rooted;
      reserves =
          reserved_value-IsReserved i.witness a.reserved
            (rw (some_inj (rw e at a.salted)) a.reserves);
      matches = rw (IsLast-Commits a.coinbase.output l).1.magic at a.matches;
    }
  ]
    where
      l : IsLast a.output a.coinbase.output
      l = last_commitment-IsLast a.coinbase.output a.output a.last

  unfoldable pub IsCommitted-IsAccepted : (b : Block) → IsCommitted b → IsAccepted b
  unfolding witness_leaves first_witness
  IsCommitted-IsAccepted b c = record {
    coinbase = c.coinbase;
    txs = c.txs;
    output = c.output;
    root = c.root;
    witness = c.first.witness;
    reserved = c.reserved;
    starts = c.starts;
    coin_base = c.coin_base;
    last = IsLast-last_commitment c.output c.coinbase.output c.last;
    rooted = rw c.starts c.rooted;
    salted = rw c.has_input refl;
    reserves = IsReserved-reserved_value c.first.witness c.reserved c.reserves;
    matches = rw c.script.magic c.matches;
  }

  -- A block passes exactly if no output of its first transaction commits and no input of any has
  -- a witness, or its first transaction is a coinbase with an input, the last of its outputs
  -- that commit carries the commitment to the witness root, which is that of zeros for the
  -- coinbase and the witness hashes of the others, and to the salt, which is the one item of 32
  -- bytes of the witness of its first input, or zeros where that is empty.
  pub check_witnesses_iff :
      (b : Block) → (check_witnesses bc b ≡ some true) ↔ (IsPlain b ⊎ IsCommitted b)
  unfolding check_witnesses
  check_witnesses_iff b = (to, from)
    where
      to : check_witnesses bc b ≡ some true → IsPlain b ⊎ IsCommitted b
      to h = elim (Bool-cases (has_commitment b)) [
        | inl c ↦ inr (IsAccepted-IsCommitted b (accepted_sound b (rw (c, check_witnesses) at h)))
        | inr n ↦ inl (has_witness-IsPlain b n (ground arith))
      ]

      from : IsPlain b ⊎ IsCommitted b → check_witnesses bc b ≡ some true
      from (inl p) = rw (IsPlain-has_commitment b p, IsPlain-has_witness b p, check_witnesses) refl
      from (inr c) =
          let a = IsCommitted-IsAccepted b c in
          rw (accepted-has_commitment b a, check_witnesses) (accepted_complete b a)

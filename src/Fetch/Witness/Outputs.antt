-- ===== src/Fetch/Witness/Outputs.antt =====
-- fetch_blocks.rs, `check_witnesses`: a commitment to witnesses and its salt, described by their
-- bytes.
use btc_rpc_proxy.Prelude.{
  suc, ◌≤◌, ◌≡◌, refl, ap, sym, subst, ◌↔◌, inl, inr, true, false, none, some, List, [], ◌∷◌, arith,
  length, take, drop, any, All, Bool-cases, Option-cases, List-cases, some_inj, not, ◌∙◌, ◌==◌,
}
use btc_rpc_proxy.Prelude.Text.{Bytes, bytes_eq_iff}
use btc_rpc_proxy.Fetch.Block.{TxIn, TxOut, Transaction, Block}
use btc_rpc_proxy.Fetch.Witness.{
  commitment_magic, commits_to, last_commitment, has_witness, has_commitment, is_empty,
  reserved_value,
}

-- A script that commits: OP_RETURN, a push of 36 bytes, the four bytes of the tag, and a hash of
-- 32 bytes, with anything behind it.
pub record IsCommitment (script rest : Bytes) : Type 0 where
  pub magic : script ≡ 0x6a ∷ 0x24 ∷ 0xaa ∷ 0x21 ∷ 0xa9 ∷ 0xed ∷ rest
  pub long : 32 ≤ length rest

abbrev pub Commits : TxOut → Type 0
Commits o = (rest : Bytes) × IsCommitment o.script_pubkey rest

-- The last of the outputs that commit.
pub data IsLast (o : TxOut) : List TxOut → Type 0 where
  here : (os : List TxOut) → Commits o → All (λ p. ¬ Commits p) os → IsLast o (o ∷ os)
  later : (p : TxOut) (os : List TxOut) → IsLast o os → IsLast o (p ∷ os)

abbrev pub thirty_two_zeros : Bytes
thirty_two_zeros =
    0 ∷ 0 ∷ 0 ∷ 0 ∷ 0 ∷ 0 ∷ 0 ∷ 0 ∷ 0 ∷ 0 ∷ 0 ∷ 0 ∷ 0 ∷ 0 ∷ 0 ∷ 0 ∷ 0 ∷ 0 ∷ 0 ∷ 0 ∷ 0 ∷ 0 ∷ 0 ∷ 0
    ∷ 0 ∷ 0 ∷ 0 ∷ 0 ∷ 0 ∷ 0 ∷ 0 ∷ 0 ∷ []

-- The salt that a coinbase's witness gives.
pub data IsReserved : List Bytes → Bytes → Type 0 where
  unsaid : IsReserved [] thirty_two_zeros
  said : (salt : Bytes) → length salt ≡ 32 → IsReserved (salt ∷ []) salt

magic_lem :
    (s : Bytes)
    → take 6 s ≡ commitment_magic
    → s ≡ 0x6a ∷ 0x24 ∷ 0xaa ∷ 0x21 ∷ 0xa9 ∷ 0xed ∷ drop 6 s
magic_lem [] h = absurd (cc)
magic_lem (a ∷ []) h = absurd (cc)
magic_lem (a ∷ b ∷ []) h = absurd (cc)
magic_lem (a ∷ b ∷ c ∷ []) h = absurd (cc)
magic_lem (a ∷ b ∷ c ∷ d ∷ []) h = absurd (cc)
magic_lem (a ∷ b ∷ c ∷ d ∷ e ∷ []) h = absurd (cc)
magic_lem (a ∷ b ∷ c ∷ d ∷ e ∷ f ∷ s) h = cc

pub commits_to-Commits : (o : TxOut) → commits_to o ≡ true → Commits o
unfolding commits_to
commits_to-Commits o h =
    let m = magic_lem o.script_pubkey ((bytes_eq_iff _ _).0 (ground arith)) in
    (drop 6 o.script_pubkey, record { magic = m; long = long_lem (ap length m) (ground arith) })
  where
    long_lem :
        length o.script_pubkey ≡ suc (suc (suc (suc (suc (suc (length (drop 6 o.script_pubkey)))))))
        → 38 ≤ length o.script_pubkey
        → 32 ≤ length (drop 6 o.script_pubkey)
    long_lem e l = omega arith

pub Commits-commits_to : (o : TxOut) → Commits o → commits_to o ≡ true
unfolding commits_to
Commits-commits_to o (rest, c) =
    rw (c.magic, commits_to)
      (ground (arith, (bytes_eq_iff commitment_magic commitment_magic).1 refl, c.long))

not-Commits : (o : TxOut) → commits_to o ≡ false → ¬ Commits o
not-Commits o h c = absurd (ground (arith, Commits-commits_to o c))

pub last_commitment-none : (os : List TxOut) → last_commitment os ≡ none → All (λ o. ¬ Commits o) os
unfolding last_commitment
last_commitment-none [] h = tt
last_commitment-none (p ∷ os) h = elim (Option-cases (last_commitment os)) [
  | inr (q, e) ↦ absurd (ground arith)
  | inl e ↦ (not-Commits p (ground arith), last_commitment-none os e)
]

pub last_commitment-IsLast :
    (os : List TxOut) (o : TxOut) → last_commitment os ≡ some o → IsLast o os
unfolding last_commitment
last_commitment-IsLast [] o h = absurd (cc)
last_commitment-IsLast (p ∷ os) o h = elim (Option-cases (last_commitment os)) [
  | inr (q, e) ↦ later p os (last_commitment-IsLast os o (e_lem q e))
  | inl e ↦ elim (Bool-cases (commits_to p)) [
    | inr n ↦ absurd (ground arith)
    | inl c ↦
        subst (λ q. IsLast q (p ∷ os)) (some_inj (rw (e, c, last_commitment) at h))
          (here os (commits_to-Commits p c) (last_commitment-none os e))
  ]
]
  where
    e_lem : (q : TxOut) → last_commitment os ≡ some q → last_commitment os ≡ some o
    e_lem q e = ground arith

none-last_commitment : (os : List TxOut) → All (λ o. ¬ Commits o) os → last_commitment os ≡ none
unfolding last_commitment
none-last_commitment [] h = refl
none-last_commitment (p ∷ os) h = elim (Bool-cases (commits_to p)) [
  | inl c ↦ absurd (h.0 (commits_to-Commits p c))
  | inr n ↦ rw (none-last_commitment os h.1, n, last_commitment) refl
]

pub IsLast-Commits : {o : TxOut} (os : List TxOut) → IsLast o os → Commits o
IsLast-Commits os (here os' c n) = c
IsLast-Commits os (later p os' l) = IsLast-Commits os' l

pub IsLast-last_commitment :
    (o : TxOut) (os : List TxOut) → IsLast o os → last_commitment os ≡ some o
unfolding last_commitment
IsLast-last_commitment o os (here os' c n) =
    rw (none-last_commitment os' n, Commits-commits_to o c, last_commitment) refl
IsLast-last_commitment o os (later p os' l) =
    rw (IsLast-last_commitment o os' l, last_commitment) refl

pub reserved_value-IsReserved :
    (w : List Bytes) (v : Bytes) → reserved_value w ≡ some v → IsReserved w v
unfolding reserved_value
reserved_value-IsReserved [] v h = subst (IsReserved []) (some_inj h) unsaid
reserved_value-IsReserved (s ∷ []) v h = elim (Bool-cases (length s == 32)) [
  | inl e ↦
      subst (IsReserved (s ∷ [])) (some_inj (rw (e, reserved_value) at h)) (said s (ground arith))
  | inr n ↦ absurd (ground arith)
]
reserved_value-IsReserved (s ∷ t ∷ w) v h = absurd (cc)

pub IsReserved-reserved_value :
    (w : List Bytes) (v : Bytes) → IsReserved w v → reserved_value w ≡ some v
unfolding reserved_value
IsReserved-reserved_value w v unsaid = refl
IsReserved-reserved_value w v (said s l) = ground (arith, l)

any_lem : (os : List TxOut) → (any commits_to os ≡ false) ↔ All (λ o. ¬ Commits o) os
any_lem [] = (λ h. tt, λ h. refl)
any_lem (o ∷ os) = (
  λ h. (not-Commits o (ground arith), (any_lem os).0 (ground arith)),
  λ n. elim (Bool-cases (commits_to o)) [
    | inl c ↦ absurd (n.0 (commits_to-Commits o c))
    | inr e ↦ rw (e, (any_lem os).1 n.1) refl
  ],
)

-- A block whose first transaction has no output that commits, and without a witness.
pub record IsPlain (b : Block) : Type 0 where
  pub uncommitted :
      (coinbase : Transaction) (txs : List Transaction)
      → b.txdata ≡ coinbase ∷ txs
      → All (λ o. ¬ Commits o) coinbase.output
  pub unwitnessed : All (λ tx. All (λ i. i.witness ≡ []) tx.input) b.txdata

inputs_lem :
    (is : List TxIn)
    → (any (λ i. not (is_empty i.witness)) is ≡ false) ↔ All (λ i. i.witness ≡ []) is
inputs_lem [] = (λ h. tt, λ h. refl)
inputs_lem (i ∷ is) = (
  λ h. elim (List-cases i.witness) [
    | inl e ↦ (e, (inputs_lem is).0 (ground arith))
    | inr (w, ws, e) ↦ absurd (ground arith)
  ],
  λ n. rw (n.0, (inputs_lem is).1 n.1) refl,
)

witnesses_lem :
    (txs : List Transaction)
    → (any (λ tx. any (λ i. not (is_empty i.witness)) tx.input) txs ≡ false)
      ↔ All (λ tx. All (λ i. i.witness ≡ []) tx.input) txs
witnesses_lem [] = (λ h. tt, λ h. refl)
witnesses_lem (tx ∷ txs) = (
  λ h. elim (Bool-cases (any (λ i. not (is_empty i.witness)) tx.input)) [
    | inl e ↦ absurd (ground arith)
    | inr e ↦ ((inputs_lem tx.input).0 e, (witnesses_lem txs).0 (ground arith))
  ],
  λ n. rw ((inputs_lem tx.input).1 n.0, (witnesses_lem txs).1 n.1) refl,
)

has_commitment_lem :
    (b : Block) (coinbase : Transaction) (txs : List Transaction)
    → b.txdata ≡ coinbase ∷ txs
    → has_commitment b ≡ any commits_to coinbase.output
unfolding has_commitment
has_commitment_lem b coinbase txs e = rw e refl

pub has_witness-IsPlain : (b : Block) → has_commitment b ≡ false → has_witness b ≡ false → IsPlain b
unfolding has_witness
has_witness-IsPlain b c w = record {
  uncommitted =
      λ coinbase txs e. (any_lem coinbase.output).0 (sym (has_commitment_lem b coinbase txs e) ∙ c);
  unwitnessed = (witnesses_lem b.txdata).0 w;
}

pub IsPlain-has_commitment : (b : Block) → IsPlain b → has_commitment b ≡ false
unfolding has_commitment
IsPlain-has_commitment b p = elim (List-cases b.txdata) [
  | inl e ↦ rw e refl
  | inr (coinbase, txs, e) ↦
      has_commitment_lem b coinbase txs e
      ∙ (any_lem coinbase.output).1 (p.uncommitted coinbase txs e)
]

pub IsPlain-has_witness : (b : Block) → IsPlain b → has_witness b ≡ false
unfolding has_witness
IsPlain-has_witness b p = (witnesses_lem b.txdata).1 p.unwitnessed

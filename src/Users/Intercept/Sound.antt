-- ===== src/Users/Intercept/Sound.antt =====
-- users.rs: what the replies that the proxy writes itself hold.
use btc_rpc_proxy.Prelude.{
  ℕ, ◌≡◌, refl, sym, subst, ◌∙◌, ap, ◌⊎◌, inl, inr, false, Option, none, some, List, [], ◌∷◌,
  Result, ok, err, arith, Bool-cases, Option-cases, Result-cases, ok_err_clash, none-some_clash,
  some_inj, ok_inj,
}
use btc_rpc_proxy.Prelude.Text.{Bytes, bytes_eq, bytes_eq_iff}
use btc_rpc_proxy.Json.{Value, string}
use btc_rpc_proxy.Cache.{BlockCache, new}
use btc_rpc_proxy.Client.Rpc.{RpcError, RpcRequest, RpcResponse}
use btc_rpc_proxy.Fetch.Block.{Block, BlockHash, Bitcoin, Transaction, Txid}
use btc_rpc_proxy.Fetch.Raw.{Outside, decoded, fetch_block_from_self, fetch_block_raw, fetch_block}
use btc_rpc_proxy.Fetch.Raw.Reach.{Reach, IsChecked, fetch_block_raw_sound}
use btc_rpc_proxy.Users.Intercept.{Formats, Calls, interceptable}
use btc_rpc_proxy.Users.Intercept.RawTransaction.{
  find_tx, transaction_reply, block_reply, intercept_raw_transaction,
}
use mathlib.Core.List.{Mem, mem-cons_self, mem-cons_of_mem}

-- The bytes that a block is decoded from are bitcoind's own, or those of a block that passed the
-- checks for the hash.
pub record IsSource {R : Type 0} (bc : Bitcoin) (o : Outside R) (hash : BlockHash) (b : Block)
    : Type 0 where
  pub bytes : Bytes
  pub decodes : bc.consensus_decode bytes ≡ some b
  pub origin : (fetch_block_from_self o ≡ ok (some bytes)) ⊎ IsChecked bc hash bytes

-- The transaction that a request names, in the block that it names.
pub record IsNamed {R : Type 0} (bc : Bitcoin) (o : Outside R) (hash : BlockHash) (txid : Txid)
    (tx : Transaction) : Type 0 where
  pub block : Block
  pub source : IsSource bc o hash block
  pub listed : Mem tx block.txdata
  pub named : bc.txid tx ≡ txid

pub find_tx_sound :
    (bc : Bitcoin) (txid : Txid) (txs : List Transaction) (tx : Transaction)
    → find_tx bc txid txs ≡ some tx
    → Mem tx txs × (bc.txid tx ≡ txid)
unfolding find_tx
find_tx_sound bc txid [] tx h = absurd (ground arith)
find_tx_sound bc txid (t ∷ txs) tx h = elim (Bool-cases (bytes_eq (bc.txid t) txid)) [
  | inl e ↦
      subst (λ x. Mem x (t ∷ txs) × (bc.txid x ≡ txid)) (some_inj (rw (e, find_tx) at h))
        (mem-cons_self, (bytes_eq_iff (bc.txid t) txid).0 e)
  | inr e ↦
      let (m, named) = find_tx_sound bc txid txs tx (rw (e, find_tx) at h) in
      (mem-cons_of_mem t m, named)
]

module _ (bc : Bitcoin) {R : Type 0} (o : Outside R)
    (meanwhile : BlockCache BlockHash → BlockCache BlockHash) where
  pub fetch_block_sound :
      (hash : BlockHash) (max : ℕ) (cache : BlockCache BlockHash) (b : Block)
      → Reach bc R (new max) cache
      → (fetch_block bc o hash meanwhile cache).1 ≡ ok (some b)
      → IsSource bc o hash b
  unfolding fetch_block decoded
  fetch_block_sound hash max cache b r h =
      elim (Result-cases (fetch_block_raw bc o hash meanwhile cache).1) [
        | inr (e, a) ↦ absurd (ok_err_clash (sym (rw (a, fetch_block) at h)))
        | inl (none, a) ↦ absurd (none-some_clash (ok_inj (rw (a, fetch_block) at h)))
        | inl (some bytes, a) ↦ elim (Option-cases (bc.consensus_decode bytes)) [
          | inl n ↦ absurd (ok_err_clash (sym (rw (a, n, fetch_block, decoded) at h)))
          | inr (b', d) ↦ record {
            bytes = bytes;
            decodes = d ∙ ok_inj (rw (a, d, fetch_block, decoded) at h);
            origin = fetch_block_raw_sound bc o hash meanwhile max cache bytes r a;
          }
        ]
      ]

  module _ (f : Formats) (calls : Calls) where
    block_reply_sound :
        (id : Option Value) (txid : Txid) (hash : BlockHash)
        (answer : Result (Option Block) RpcError) (v : Value)
        → (block_reply bc f calls id txid false hash answer).result ≡ some v
        → (b : Block) × (tx : Transaction) × (answer ≡ ok (some b))
          × (find_tx bc txid b.txdata ≡ some tx)
          × (v ≡ string (f.serialize_hex tx))
    unfolding block_reply transaction_reply
    block_reply_sound id txid hash (err e) v h = absurd (ground arith)
    block_reply_sound id txid hash (ok none) v h = absurd (ground arith)
    block_reply_sound id txid hash (ok (some b)) v h =
        elim (Option-cases (find_tx bc txid b.txdata)) [
          | inl n ↦ absurd (none-some_clash (rw (n, block_reply) at h))
          | inr (tx, t) ↦
              (b, tx, refl, t, sym (some_inj (rw (t, block_reply, transaction_reply) at h)))
        ]

    -- The result of a reply to a getrawtransaction that is not verbose is the encoding of a
    -- transaction of the txid that was asked for, out of a block that bitcoind itself sent or
    -- that passed the checks for the hash that was asked for, if the cache was reached by
    -- lookups and fetches.
    pub intercept_raw_transaction_sound :
        (req : RpcRequest) (params : List Value) (txid : Txid) (hash : BlockHash) (max : ℕ)
        (cache : BlockCache BlockHash) (reply : RpcResponse Value) (v : Value)
        → Reach bc R (new max) cache
        → interceptable f params ≡ some (txid, false, hash)
        → (intercept_raw_transaction bc f calls o meanwhile req params cache).1 ≡ ok (some reply)
        → reply.result ≡ some v
        → (tx : Transaction) × IsNamed bc o hash txid tx × (v ≡ string (f.serialize_hex tx))
    unfolding intercept_raw_transaction
    intercept_raw_transaction_sound req params txid hash max cache reply v r i h w =
        let (b, tx, answer, t, e) =
          block_reply_sound req.id txid hash (fetch_block bc o hash meanwhile cache).1 v (
            ap (λ (x : RpcResponse Value). x.result)
              (some_inj (ok_inj (rw (i, intercept_raw_transaction) at h)))
            ∙ w) in
        let (listed, named) = find_tx_sound bc txid b.txdata tx t in
        (
          tx,
          record {
            block = b;
            source = fetch_block_sound hash max cache b r answer;
            listed = listed;
            named = named;
          },
          e,
        )

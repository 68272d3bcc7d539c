-- ===== src/Users/Intercept/Blocks.antt =====
-- users.rs: what the replies to `getblock` hold that the proxy writes itself.
use btc_rpc_proxy.Prelude.{
  ℕ, ◌≡◌, refl, sym, ◌∙◌, ap, ◌⊎◌, inl, inr, Bool, true, false, Option, none, some, List, map,
  Result, ok, err, ◌>>=◌, Option-cases, Result-cases, ok_err_clash, none-some_clash, some_inj,
  ok_inj,
}
use btc_rpc_proxy.Prelude.Text.{Bytes}
use btc_rpc_proxy.Json.{Value, string}
use btc_rpc_proxy.Util.{Either, into_right}
use btc_rpc_proxy.Cache.{BlockCache, new}
use btc_rpc_proxy.Client.Rpc.{RpcError, RpcRequest, RpcResponse, into_result}
use btc_rpc_proxy.Fetch.Block.{Block, BlockHash, Bitcoin}
use btc_rpc_proxy.Fetch.Raw.{Outside, fetch_block_from_self, fetch_block_raw, fetch_block}
use btc_rpc_proxy.Fetch.Raw.Reach.{Reach, IsChecked, fetch_block_raw_sound}
use btc_rpc_proxy.RpcMethods.Blocks.{GetBlockHeaderResult, block_to}
use btc_rpc_proxy.Users.Intercept.{
  Formats, Calls, Race, fetch_first, header_after_lookup, header_first, param, first_param,
  block_verbosity,
}
use btc_rpc_proxy.Users.Intercept.RawTransaction.{Answered}
use btc_rpc_proxy.Users.Intercept.Dispatch.{
  raw_reply, block_result, summary_reply, beside, getblock_raw, getblock_summary, getblock,
}
use btc_rpc_proxy.Users.Intercept.Sound.{IsSource, fetch_block_sound}

module _ (bc : Bitcoin) {R : Type 0} (o : Outside R)
    (meanwhile : BlockCache BlockHash → BlockCache BlockHash) (f : Formats) (calls : Calls) where
  -- What bitcoind says of the header.
  abbrev header_said : Result (Either Bytes GetBlockHeaderResult) RpcError
  header_said = calls.getblockheader >>= λ response. into_result calls.header_from_null response

  -- The bytes in hexadecimal, of bitcoind or of a block that passed the checks for the hash; or the
  -- header that bitcoind gives beside what is worked out of such a block.
  pub data IsBlockReply (hash : BlockHash) (v : Value) : Bool → Type 0 where
    raw :
        (bytes : Bytes)
        → (fetch_block_from_self o ≡ ok (some bytes)) ⊎ IsChecked bc hash bytes
        → v ≡ string (f.crates.encode bytes)
        → IsBlockReply hash v false
    summary :
        (b : Block) (said : Either Bytes GetBlockHeaderResult) (h : GetBlockHeaderResult)
        → IsSource bc o hash b
        → header_said ≡ ok said
        → into_right said ≡ some h
        → block_to f.crates (block_result f b (map bc.txid b.txdata) h) ≡ v
        → IsBlockReply hash v true

  raw_reply-result :
      (id : Option Value) (answer : Result (Option Bytes) RpcError) (v : Value)
      → (raw_reply f id answer).result ≡ some v
      → (bytes : Bytes) × (answer ≡ ok (some bytes)) × (v ≡ string (f.crates.encode bytes))
  unfolding raw_reply
  raw_reply-result id (ok (some bytes)) v h = (bytes, refl, sym (some_inj h))
  raw_reply-result id (ok none) v h = absurd (none-some_clash h)
  raw_reply-result id (err e) v h = absurd (none-some_clash h)

  ended-ok :
      (block : Result (Option Block) RpcError)
      (header : Result (Either Bytes GetBlockHeaderResult) RpcError)
      (both : Either Bytes GetBlockHeaderResult × Option Block)
      → (block >>= λ b. header >>= λ h. ok (h, b)) ≡ ok both
      → (header ≡ ok both.0) × (block ≡ ok both.1)
  ended-ok (ok b) (ok said) both h = (
    ap (λ (x : Either Bytes GetBlockHeaderResult × Option Block). ok x.0) (ok_inj h),
    ap (λ (x : Either Bytes GetBlockHeaderResult × Option Block). ok x.1) (ok_inj h),
  )
  ended-ok (ok b) (err e) both h = absurd (ok_err_clash (sym h))
  ended-ok (err e) header both h = absurd (ok_err_clash (sym h))

  beside-ok :
      (hash : BlockHash) (cache : BlockCache BlockHash)
      (both : Either Bytes GetBlockHeaderResult × Option Block)
      → (beside bc f calls o meanwhile hash cache).1 ≡ ok both
      → (header_said ≡ ok both.0) × ((fetch_block bc o hash meanwhile cache).1 ≡ ok both.1)
  unfolding beside
  beside-ok hash cache both h = elim (Result-cases header_said) [
    | inl (said, k) ↦ ended-ok _ header_said both (rw (k, beside) at h)
    | inr (e, k) ↦ failed e k calls.race refl
  ]
    where
      failed :
          (e : RpcError)
          → header_said ≡ err e
          → (race : Race) → calls.race ≡ race
          → (header_said ≡ ok both.0) × ((fetch_block bc o hash meanwhile cache).1 ≡ ok both.1)
      failed e k fetch_first r = ended-ok _ header_said both (rw (k, r, beside) at h)
      failed e k header_after_lookup r = absurd (ok_err_clash (sym (rw (k, r, beside) at h)))
      failed e k header_first r = absurd (ok_err_clash (sym (rw (k, r, beside) at h)))

  summary_reply-result :
      (id : Option Value)
      (both : Result (Either Bytes GetBlockHeaderResult × Option Block) RpcError)
      (reply : RpcResponse Value) (v : Value)
      → summary_reply f bc id both ≡ ok (some reply)
      → reply.result ≡ some v
      → (b : Block) × (said : Either Bytes GetBlockHeaderResult) × (h : GetBlockHeaderResult)
        × (both ≡ ok (said, some b))
        × (into_right said ≡ some h)
        × (block_to f.crates (block_result f b (map bc.txid b.txdata) h) ≡ v)
  unfolding summary_reply
  summary_reply-result id (err e) reply v k w =
      absurd (none-some_clash (ap (λ (x : RpcResponse Value). x.result) (some_inj (ok_inj k)) ∙ w))
  summary_reply-result id (ok (said, none)) reply v k w =
      absurd (none-some_clash (ap (λ (x : RpcResponse Value). x.result) (some_inj (ok_inj k)) ∙ w))
  summary_reply-result id (ok (said, some b)) reply v k w = elim (Option-cases (into_right said)) [
    | inl n ↦ absurd (ok_err_clash (sym (rw (n, summary_reply) at k)))
    | inr (h, n) ↦ (
      b,
      said,
      h,
      refl,
      n,
      some_inj (
          ap (λ (x : RpcResponse Value). x.result) (some_inj (ok_inj (rw (n, summary_reply) at k)))
          ∙ w),
    )
  ]

  getblock_raw_sound :
      (id : Option Value) (hash : BlockHash) (max : ℕ) (cache : BlockCache BlockHash)
      (reply : RpcResponse Value) (v : Value)
      → Reach bc R (new max) cache
      → (getblock_raw bc f calls o meanwhile id cache (ok hash)).1 ≡ ok (some reply)
      → reply.result ≡ some v
      → IsBlockReply hash v false
  unfolding getblock_raw
  getblock_raw_sound id hash max cache reply v r h w =
      let (bytes, answer, e) =
        raw_reply-result id (fetch_block_raw bc o hash meanwhile cache).1 v
          (ap (λ (x : RpcResponse Value). x.result) (some_inj (ok_inj h)) ∙ w) in
      raw bytes (fetch_block_raw_sound bc o hash meanwhile max cache bytes r answer) e

  getblock_summary_sound :
      (id : Option Value) (hash : BlockHash) (max : ℕ) (cache : BlockCache BlockHash)
      (reply : RpcResponse Value) (v : Value)
      → Reach bc R (new max) cache
      → (getblock_summary bc f calls o meanwhile id cache (ok hash)).1 ≡ ok (some reply)
      → reply.result ≡ some v
      → IsBlockReply hash v true
  unfolding getblock_summary
  getblock_summary_sound id hash max cache reply v r h w =
      let (b, said, header, both, right, e) =
        summary_reply-result id (beside bc f calls o meanwhile hash cache).1 reply v h w in
      let (s, block) = beside-ok hash cache (said, some b) both in
      summary b said header (fetch_block_sound bc o meanwhile hash max cache b r block) s right e

  -- The result of a reply to getblock that the proxy writes is, if the cache was reached by
  -- lookups and fetches, the hexadecimal of bytes that bitcoind itself sent or that are a block
  -- that passed the checks for the hash that was asked for, or with verbosity 1 the header that
  -- bitcoind gives and what is worked out of such a block.
  pub getblock_sound :
      (req : RpcRequest) (params : List Value) (verbose : Bool) (p : Value) (hash : BlockHash)
      (max : ℕ) (cache : BlockCache BlockHash) (a : Answered) (reply : RpcResponse Value)
      (v : Value)
      → Reach bc R (new max) cache
      → block_verbosity (param 1 params) ≡ some verbose
      → first_param params ≡ ok p
      → f.hash_from_value p ≡ ok hash
      → getblock bc f calls o meanwhile req params cache ≡ ok a
      → a.1 ≡ ok (some reply)
      → reply.result ≡ some v
      → IsBlockReply hash v verbose
  unfolding getblock
  getblock_sound req params false p hash max cache a reply v r b q d h s w =
      getblock_raw_sound req.id hash max cache reply v r
        (ap (λ (x : Answered). x.1) (ok_inj (rw (b, q, d, getblock) at h)) ∙ s) w
  getblock_sound req params true p hash max cache a reply v r b q d h s w =
      getblock_summary_sound req.id hash max cache reply v r
        (ap (λ (x : Answered). x.1) (ok_inj (rw (b, q, d, getblock) at h)) ∙ s) w

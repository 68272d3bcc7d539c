-- ===== src/Proxy/Reach.antt =====
-- proxy.rs, users.rs: what whole requests do to the block cache.
use btc_rpc_proxy.Prelude.{
  ℕ, ◌≡◌, refl, ◌&&◌, sym, subst, ◌⊎◌, inl, inr, Bool, true, false, Option, some, List, Result, ok,
  err, ◌>>=◌, ok_err_clash, ok_inj, Bool-cases, Option-cases, Result-cases, String,
}
use btc_rpc_proxy.Json.{Value}
use btc_rpc_proxy.Cache.{BlockCache, new, get}
use btc_rpc_proxy.Client.Rpc.{RpcRequest, GenericRpcParams, array, object, into_result}
use btc_rpc_proxy.Fetch.Block.{BlockHash, Bitcoin}
use btc_rpc_proxy.Fetch.Raw.{Outside, hash_eq, fetch_block_raw, fetch_block}
use btc_rpc_proxy.Fetch.Raw.Reach.{Reach, next, looks, ends}
use btc_rpc_proxy.Users.Login.{User}
use btc_rpc_proxy.Users.Intercept.{
  Formats, Calls, Race, OutOfBounds, fetch_first, header_after_lookup, header_first, param,
  first_param, block_verbosity, interceptable,
}
use btc_rpc_proxy.Users.Intercept.RawTransaction.{Answered, intercept_raw_transaction}
use btc_rpc_proxy.Users.Intercept.Dispatch.{
  beside, getblock_raw, getblock_summary, getblock, by_params, intercept, is_allowed,
}
use text.Mathlib.Text.{◌==◌ as str_eq}

-- The cache is as the service can leave it, from its start with the bound `max`.
abbrev pub IsReached : Bitcoin → Type 0 → ℕ → BlockCache BlockHash → Type 0
IsReached bc R max c = Reach bc R (new max) c

-- What runs meanwhile is other requests.
abbrev pub IsQuiet : Bitcoin → Type 0 → ℕ → (BlockCache BlockHash → BlockCache BlockHash) → Type 0
IsQuiet bc R max f = (c : BlockCache BlockHash) → IsReached bc R max c → IsReached bc R max (f c)

Race-cases : (w : Race) → (w ≡ fetch_first) ⊎ ((w ≡ header_after_lookup) ⊎ (w ≡ header_first))
Race-cases fetch_first = inl refl
Race-cases header_after_lookup = inr (inl refl)
Race-cases header_first = inr (inr refl)

module _ (bc : Bitcoin) {R : Type 0} (o : Outside R)
    (meanwhile : BlockCache BlockHash → BlockCache BlockHash) (max : ℕ)
    (quiet : IsQuiet bc R max meanwhile) where
  fetch_block_raw-Reach :
      (hash : BlockHash) (cache : BlockCache BlockHash)
      → IsReached bc R max cache
      → IsReached bc R max (fetch_block_raw bc o hash meanwhile cache).0
  unfolding fetch_block_raw
  fetch_block_raw-Reach hash cache r = elim (Option-cases (get hash_eq cache hash).1) [
    | inr (b, hit) ↦ rw (hit, fetch_block_raw) (next r (looks cache hash))
    | inl miss ↦
        rw (miss, fetch_block_raw) (next (quiet _ (next r (looks cache hash))) (ends _ hash o))
  ]

  fetch_block-Reach :
      (hash : BlockHash) (cache : BlockCache BlockHash)
      → IsReached bc R max cache
      → IsReached bc R max (fetch_block bc o hash meanwhile cache).0
  unfolding fetch_block
  fetch_block-Reach hash cache r = fetch_block_raw-Reach hash cache r

  module _ (f : Formats) (calls : Calls) where
    intercept_raw_transaction-Reach :
        (req : RpcRequest) (params : List Value) (cache : BlockCache BlockHash)
        → IsReached bc R max cache
        → IsReached bc R max (intercept_raw_transaction bc f calls o meanwhile req params cache).0
    unfolding intercept_raw_transaction
    intercept_raw_transaction-Reach req params cache r =
        elim (Option-cases (interceptable f params)) [
          | inl n ↦ rw (n, intercept_raw_transaction) r
          | inr (t, n) ↦ rw (n, intercept_raw_transaction) (fetch_block-Reach t.2 cache r)
        ]

    beside-Reach :
        (hash : BlockHash) (cache : BlockCache BlockHash)
        → IsReached bc R max cache
        → IsReached bc R max (beside bc f calls o meanwhile hash cache).0
    unfolding beside
    beside-Reach hash cache r =
        elim (Result-cases
          (calls.getblockheader >>= λ response. into_result calls.header_from_null response)) [
            | inl (h, k) ↦ rw (k, beside) (fetch_block-Reach hash cache r)
            | inr (e, k) ↦ elim (Race-cases calls.race) [
              | inl w ↦ rw (k, w, beside) (fetch_block-Reach hash cache r)
              | inr (inl w) ↦ rw (k, w, beside) (quiet _ (next r (looks cache hash)))
              | inr (inr w) ↦ rw (k, w, beside) r
            ]
          ]

    getblock_raw-Reach :
        (id : Option Value) (cache : BlockCache BlockHash) (hash : Result BlockHash String)
        → IsReached bc R max cache
        → IsReached bc R max (getblock_raw bc f calls o meanwhile id cache hash).0
    unfolding getblock_raw
    getblock_raw-Reach id cache (err e) r = r
    getblock_raw-Reach id cache (ok hash) r = fetch_block_raw-Reach hash cache r

    getblock_summary-Reach :
        (id : Option Value) (cache : BlockCache BlockHash) (hash : Result BlockHash String)
        → IsReached bc R max cache
        → IsReached bc R max (getblock_summary bc f calls o meanwhile id cache hash).0
    unfolding getblock_summary
    getblock_summary-Reach id cache (err e) r = r
    getblock_summary-Reach id cache (ok hash) r = beside-Reach hash cache r

    getblock-Reach :
        (req : RpcRequest) (params : List Value) (cache : BlockCache BlockHash) (a : Answered)
        → IsReached bc R max cache
        → getblock bc f calls o meanwhile req params cache ≡ ok a
        → IsReached bc R max a.0
    unfolding getblock
    getblock-Reach req params cache a r h = elim (Option-cases (block_verbosity (param 1 params))) [
      | inl n ↦ to (ok_inj (rw (n, getblock) at h)) r
      | inr (b, n) ↦ elim (Result-cases (first_param params)) [
        | inr (e, p) ↦ absurd (ok_err_clash (sym (panics b e n p)))
        | inl (v, p) ↦ reads b v n p
      ]
    ]
      where
        to : {c d : Answered} → c ≡ d → IsReached bc R max c.0 → IsReached bc R max d.0
        to e k = subst (λ (x : Answered). IsReached bc R max x.0) e k

        panics :
            (b : Bool) (e : OutOfBounds)
            → block_verbosity (param 1 params) ≡ some b
            → first_param params ≡ err e
            → err e ≡ ok a
        panics true e n p = rw (n, p, getblock) at h
        panics false e n p = rw (n, p, getblock) at h

        reads :
            (b : Bool) (v : Value)
            → block_verbosity (param 1 params) ≡ some b
            → first_param params ≡ ok v
            → IsReached bc R max a.0
        reads false v n p =
            to (ok_inj (rw (n, p, getblock) at h))
              (getblock_raw-Reach req.id cache (f.hash_from_value v) r)
        reads true v n p =
            to (ok_inj (rw (n, p, getblock) at h))
              (getblock_summary-Reach req.id cache (f.hash_from_value v) r)

    by_params-Reach :
        (u : User) (req : RpcRequest) (p : GenericRpcParams) (cache : BlockCache BlockHash)
        (a : Answered)
        → IsReached bc R max cache
        → by_params bc f calls o meanwhile u req p cache ≡ ok a
        → IsReached bc R max a.0
    unfolding by_params
    by_params-Reach u req (object fs) cache a r h =
        subst (λ (x : Answered). IsReached bc R max x.0) (ok_inj h) r
    by_params-Reach u req (array ps) cache a r h =
        elim (Bool-cases (u.fetch_blocks && str_eq req.method "getblock")) [
          | inl g ↦ getblock-Reach req ps cache a r (rw (g, by_params) at h)
          | inr g ↦ elim (Bool-cases (u.fetch_blocks && str_eq req.method "getrawtransaction")) [
            | inl t ↦
                subst (λ (x : Answered). IsReached bc R max x.0)
                  (ok_inj (rw (g, t, by_params) at h))
                  (intercept_raw_transaction-Reach req ps cache r)
            | inr t ↦
                subst (λ (x : Answered). IsReached bc R max x.0)
                  (ok_inj (rw (g, t, by_params) at h)) r
          ]
        ]

    -- The interception of a request leads from one reached cache to another.
    pub intercept-Reach :
        (u : User) (req : RpcRequest) (cache : BlockCache BlockHash) (a : Answered)
        → IsReached bc R max cache
        → intercept bc f calls o meanwhile u req cache ≡ ok a
        → IsReached bc R max a.0
    unfolding intercept
    intercept-Reach u req cache a r h = elim (Bool-cases (is_allowed u req.method)) [
      | inl k ↦ by_params-Reach u req req.params cache a r (rw (k, intercept) at h)
      | inr k ↦ subst (λ (x : Answered). IsReached bc R max x.0) (ok_inj (rw (k, intercept) at h)) r
    ]

-- ===== src/Users/Intercept/Laws.antt =====
-- users.rs: which requests `interceptable` and `User::intercept` take up.
use btc_rpc_proxy.Prelude.{
  zero, suc, some_inj, subst, sym, ◌≡◌, refl, ap, ◌↔◌, ◌⊎◌, inl, inr, Bool, true, false, none, some,
  List, [], ◌∷◌, ok, err, arith, if◌then◌else◌, Bool-cases, Option-cases, Result-cases,
  ok_err_clash,
}
use btc_rpc_proxy.Json.{
  Value, null, bool, number, string, int, float, as_u64, array as json_array, object as json_object,
}
use btc_rpc_proxy.Prelude.Int.{pos, negsuc}
use btc_rpc_proxy.Cache.{BlockCache}
use btc_rpc_proxy.Client.Rpc.{RpcRequest, GenericRpcParams, array, object}
use btc_rpc_proxy.Fetch.Block.{BlockHash, Bitcoin, Txid}
use btc_rpc_proxy.Fetch.Raw.{Outside}
use btc_rpc_proxy.Users.Login.{User}
use btc_rpc_proxy.Users.Intercept.{
  Formats, Calls, index_out_of_bounds, param, first_param, block_verbosity, transaction_verbosity,
  interceptable,
}
use btc_rpc_proxy.Users.Intercept.Dispatch.{getblock, by_params, intercept, is_allowed, not_allowed}
use text.Mathlib.Text.{◌==◌ as str_eq}

-- What the second parameter of a getrawtransaction may be, and the verbosity that it asks for. It
-- is not left out where there is a third one.
pub data IsVerbosity : Value → Bool → Type 0 where
  is_null : IsVerbosity null false
  is_bool : (b : Bool) → IsVerbosity (bool b) b
  is_zero : IsVerbosity (number (int (pos 0))) false
  is_one : IsVerbosity (number (int (pos 1))) true

-- The parameters of a call that the proxy can answer: a txid, a verbosity, and a block.
pub record IsCall (f : Formats) (params : List Value) (txid : Txid) (verbose : Bool)
    (hash : BlockHash) : Type 0 where
  pub first : Value
  pub second : Value
  pub third : Value
  pub rest : List Value
  pub given : params ≡ first ∷ second ∷ third ∷ rest
  pub is_txid : f.txid_from_value first ≡ ok txid
  pub is_verbosity : IsVerbosity second verbose
  pub is_hash : f.hash_from_value third ≡ ok hash

transaction_verbosity-IsVerbosity :
    (v : Value) (b : Bool) → transaction_verbosity (some v) ≡ some b → IsVerbosity v b
unfolding transaction_verbosity as_u64
transaction_verbosity-IsVerbosity null b h = subst (λ b. IsVerbosity null b) (some_inj h) is_null
transaction_verbosity-IsVerbosity (bool a) b h =
    subst (λ b. IsVerbosity (bool a) b) (some_inj h) (is_bool a)
transaction_verbosity-IsVerbosity (number (int (pos zero))) b h =
    subst (λ b. IsVerbosity (number (int (pos 0))) b) (some_inj h) is_zero
transaction_verbosity-IsVerbosity (number (int (pos (suc zero)))) b h =
    subst (λ b. IsVerbosity (number (int (pos 1))) b) (some_inj h) is_one
transaction_verbosity-IsVerbosity (number (int (pos (suc (suc n))))) b h = absurd (cc)
transaction_verbosity-IsVerbosity (number (int (negsuc n))) b h = absurd (cc)
transaction_verbosity-IsVerbosity (number (float s)) b h = absurd (cc)
transaction_verbosity-IsVerbosity (string s) b h = absurd (cc)
transaction_verbosity-IsVerbosity (json_array vs) b h = absurd (cc)
transaction_verbosity-IsVerbosity (json_object fs) b h = absurd (cc)

IsVerbosity-transaction_verbosity :
    (v : Value) (b : Bool) → IsVerbosity v b → transaction_verbosity (some v) ≡ some b
unfolding transaction_verbosity as_u64
IsVerbosity-transaction_verbosity v b is_null = refl
IsVerbosity-transaction_verbosity v b (is_bool a) = refl
IsVerbosity-transaction_verbosity v b is_zero = refl
IsVerbosity-transaction_verbosity v b is_one = refl

interceptable-IsCall :
    (f : Formats) (params : List Value) (txid : Txid) (verbose : Bool) (hash : BlockHash)
    → interceptable f params ≡ some (txid, verbose, hash)
    → IsCall f params txid verbose hash
unfolding interceptable param
interceptable-IsCall f [] txid verbose hash h = absurd (ground arith)
interceptable-IsCall f (first ∷ []) txid verbose hash h = absurd (ground arith)
interceptable-IsCall f (first ∷ second ∷ []) txid verbose hash h = absurd (ground arith)
interceptable-IsCall f (first ∷ second ∷ third ∷ rest) txid verbose hash h =
    elim (Result-cases (f.hash_from_value third)) [
      | inr (e, p) ↦ absurd (ground arith)
      | inl (hash', p) ↦ elim (Option-cases (transaction_verbosity (some second))) [
        | inl v ↦ absurd (ground arith)
        | inr (verbose', v) ↦ elim (Result-cases (f.txid_from_value first)) [
          | inr (e, q) ↦ absurd (ground arith)
          | inl (txid', q) ↦ record {
            first = first;
            second = second;
            third = third;
            rest = rest;
            given = refl;
            is_txid = ground arith;
            is_verbosity = transaction_verbosity-IsVerbosity second verbose (ground arith);
            is_hash = ground arith;
          }
        ]
      ]
    ]

IsCall-interceptable :
    (f : Formats) (params : List Value) (txid : Txid) (verbose : Bool) (hash : BlockHash)
    → IsCall f params txid verbose hash
    → interceptable f params ≡ some (txid, verbose, hash)
unfolding interceptable param
IsCall-interceptable f params txid verbose hash c =
    subst (λ ps. interceptable f ps ≡ some (txid, verbose, hash)) (sym c.given)
      (rw
        (
          c.is_hash,
          IsVerbosity-transaction_verbosity c.second verbose c.is_verbosity,
          c.is_txid,
          interceptable,
        )
        refl)

-- A getrawtransaction is taken up exactly if it has three parameters or more, the first a txid,
-- the second null, a Boolean, 0 or 1, and the third a block hash; the txid, the block hash and
-- the verbosity that null and 0 deny and 1 asks for are then what is read from it.
pub interceptable_iff :
    (f : Formats) (params : List Value) (txid : Txid) (verbose : Bool) (hash : BlockHash)
    → (interceptable f params ≡ some (txid, verbose, hash)) ↔ IsCall f params txid verbose hash
interceptable_iff f params txid verbose hash = (
  interceptable-IsCall f params txid verbose hash,
  IsCall-interceptable f params txid verbose hash,
)

-- The request that indexes an empty list.
pub record IsCrash (u : User) (req : RpcRequest) : Type 0 where
  pub allowed : is_allowed u req.method ≡ true
  pub fetches : u.fetch_blocks ≡ true
  pub is_getblock : str_eq req.method "getblock" ≡ true
  pub no_params : req.params ≡ array []

module _ (bc : Bitcoin) (f : Formats) (calls : Calls) {R : Type 0} (o : Outside R)
    (meanwhile : BlockCache BlockHash → BlockCache BlockHash) where
  getblock_panics :
      (req : RpcRequest) (params : List Value) (cache : BlockCache BlockHash)
      → getblock bc f calls o meanwhile req params cache ≡ err index_out_of_bounds
      → params ≡ []
  unfolding getblock first_param
  getblock_panics req [] cache h = refl
  getblock_panics req (v ∷ vs) cache h = elim (Option-cases (block_verbosity (param 1 (v ∷ vs)))) [
    | inl n ↦ absurd (ok_err_clash (rw (n, getblock) at h))
    | inr (true, b) ↦ absurd (ok_err_clash (rw (b, getblock, first_param) at h))
    | inr (false, b) ↦ absurd (ok_err_clash (rw (b, getblock, first_param) at h))
  ]

  by_params_panics :
      (u : User) (req : RpcRequest) (p : GenericRpcParams) (cache : BlockCache BlockHash)
      → by_params bc f calls o meanwhile u req p cache ≡ err index_out_of_bounds
      → (u.fetch_blocks ≡ true) × (str_eq req.method "getblock" ≡ true) × (p ≡ array [])
  unfolding by_params
  by_params_panics u req (object fs) cache h = absurd (ground arith)
  by_params_panics u req (array ps) cache h = elim (Bool-cases u.fetch_blocks) [
    | inr b ↦ absurd (ok_err_clash (rw (b, by_params) at h))
    | inl b ↦ elim (Bool-cases (str_eq req.method "getblock")) [
      | inl g ↦ (b, g, ap array (getblock_panics req ps cache (rw (b, g, by_params) at h)))
      | inr g ↦ elim (Bool-cases (str_eq req.method "getrawtransaction")) [
        | inl t ↦ absurd (ok_err_clash (rw (b, g, t, by_params) at h))
        | inr t ↦ absurd (ok_err_clash (rw (b, g, t, by_params) at h))
      ]
    ]
  ]

  intercept_panics-IsCrash :
      (u : User) (req : RpcRequest) (cache : BlockCache BlockHash)
      → intercept bc f calls o meanwhile u req cache ≡ err index_out_of_bounds
      → IsCrash u req
  unfolding intercept
  intercept_panics-IsCrash u req cache h = elim (Bool-cases (is_allowed u req.method)) [
    | inr a ↦ absurd (ok_err_clash (rw (a, intercept) at h))
    | inl a ↦
        let (b, g, p) = by_params_panics u req req.params cache (rw (a, intercept) at h) in
        record { allowed = a; fetches = b; is_getblock = g; no_params = p }
  ]

  IsCrash-intercept_panics :
      (u : User) (req : RpcRequest) (cache : BlockCache BlockHash)
      → IsCrash u req
      → intercept bc f calls o meanwhile u req cache ≡ err index_out_of_bounds
  unfolding intercept by_params getblock block_verbosity param first_param
  IsCrash-intercept_panics u req cache c =
      rw (c.allowed, c.no_params, c.fetches, c.is_getblock, intercept, by_params) refl

  -- The interception panics by an index out of bounds exactly on a getblock with an empty array
  -- of parameters, from a user who may call it and for whom blocks are fetched.
  pub intercept_panics_iff :
      (u : User) (req : RpcRequest) (cache : BlockCache BlockHash)
      → (intercept bc f calls o meanwhile u req cache ≡ err index_out_of_bounds) ↔ IsCrash u req
  intercept_panics_iff u req cache =
      (intercept_panics-IsCrash u req cache, IsCrash-intercept_panics u req cache)

  by_params_idle :
      (u : User) (req : RpcRequest) (p : GenericRpcParams) (cache : BlockCache BlockHash)
      → u.fetch_blocks ≡ false
      → by_params bc f calls o meanwhile u req p cache ≡ ok (cache, ok none)
  unfolding by_params
  by_params_idle u req (object fs) cache b = refl
  by_params_idle u req (array ps) cache b = rw (b, by_params) refl

  -- For a user for whom no blocks are fetched, and for a method that the user may not call, the
  -- cache is as it was; the request goes to bitcoind if its method is allowed, and else is
  -- answered by the error for that.
  pub intercept_idle :
      (u : User) (req : RpcRequest) (cache : BlockCache BlockHash)
      → (u.fetch_blocks ≡ false) ⊎ (is_allowed u req.method ≡ false)
      → intercept bc f calls o meanwhile u req cache
        ≡ ok (cache, if is_allowed u req.method then ok none else err not_allowed)
  unfolding intercept
  intercept_idle u req cache (inr a) = rw (a, intercept) refl
  intercept_idle u req cache (inl b) = elim (Bool-cases (is_allowed u req.method)) [
    | inr a ↦ rw (a, intercept) refl
    | inl a ↦ rw (a, intercept) (by_params_idle u req req.params cache b)
  ]

-- ===== src/State/Network.antt =====
-- state.rs: the network that bitcoind is on, which is asked for once.
use btc_rpc_proxy.Prelude.{
  ℕ, ◌+◌, ◌*◌, ◌<◌, ◌^◌, ◌≡◌, refl, ◌⊎◌, inl, inr, Option, none, some, [], ◌∷◌, ◌++◌, length,
  Result, ok, err, ok_err_clash, ok_inj, subst, sym, if◌then◌else◌, Bool-cases, Result-cases, All,
  arith, String,
}
use btc_rpc_proxy.Prelude.Text.{Bytes}
use text.Mathlib.Text.{◌==◌ as str_eq}

pub record NetworkParams : Type 0 where
  pub magic : ℕ
  pub default_peer_port : ℕ

pub data NetworkError : Type 0 where
  unknown_chain : String → NetworkError
  missing_signet_challenge : NetworkError

pub record BlockchainInfo : Type 0 where
  pub chain : String
  pub signet_challenge : Option Bytes

-- `u32::from_le_bytes` of the first four bytes; fewer than four do not come from a hash.
unfoldable pub from_le_bytes : Bytes → ℕ
from_le_bytes (a ∷ b ∷ c ∷ d ∷ _) = a + 256 * b + 65536 * c + 16777216 * d
from_le_bytes _ = 0

from_le_bytes-bound : (bs : Bytes) → All (λ b. b < 256) bs → from_le_bytes bs < 2 ^ 32
unfolding from_le_bytes
from_le_bytes-bound [] h = omega arith
from_le_bytes-bound (a ∷ []) h = omega arith
from_le_bytes-bound (a ∷ b ∷ []) h = omega arith
from_le_bytes-bound (a ∷ b ∷ c ∷ []) h = omega arith
from_le_bytes-bound (a ∷ b ∷ c ∷ d ∷ bs) (p, (q, (r, (s, t)))) = omega arith

bounded :
    {E : Type 0} {q : NetworkParams} (p : NetworkParams)
    → ◌≡◌ {A = Result NetworkParams E} (ok q) (ok p)
    → q.magic < 2 ^ 32
    → q.default_peer_port < 2 ^ 16
    → (p.magic < 2 ^ 32) × (p.default_peer_port < 2 ^ 16)
bounded p e m r =
    subst (λ (x : NetworkParams). (x.magic < 2 ^ 32) × (x.default_peer_port < 2 ^ 16)) (ok_inj e)
      (m, r)

-- Why the parameters cannot be had: bitcoind did not answer, or its answer is of no use.
pub data ParamsError : Type 0 where
  unanswered : String → ParamsError
  unusable : NetworkError → ParamsError

-- `sha256d` is the double hash, `var_int` the encoding of a length, both of the bitcoin crate.
module _ (sha256d : Bytes → Bytes) (var_int : ℕ → Bytes) where
  unfoldable pub signet_magic : Bytes → ℕ
  signet_magic challenge = from_le_bytes (sha256d (var_int (length challenge) ++ challenge))

  unfoldable pub signet : Option Bytes → Result NetworkParams NetworkError
  signet none = err missing_signet_challenge
  signet (some challenge) =
      ok (record { magic = signet_magic challenge; default_peer_port = 38333 })

  unfoldable pub from_blockchain_info : BlockchainInfo → Result NetworkParams NetworkError
  unfolding signet
  from_blockchain_info info =
      if str_eq info.chain "main"
      then ok (record { magic = 0xD9B4BEF9; default_peer_port = 8333 })
      else (if str_eq info.chain "test"
          then ok (record { magic = 0x0709110B; default_peer_port = 18333 })
          else (if str_eq info.chain "testnet4"
              then ok (record { magic = 0x283F161C; default_peer_port = 48333 })
              else (if str_eq info.chain "signet"
                  then signet info.signet_challenge
                  else (if str_eq info.chain "regtest"
                      then ok (record { magic = 0xDAB5BFFA; default_peer_port = 18444 })
                      else err (unknown_chain info.chain)))))

  unfoldable pub keep :
      Result NetworkParams NetworkError → Option NetworkParams × Result NetworkParams ParamsError
  keep (ok p) = (some p, ok p)
  keep (err e) = (none, err (unusable e))

  -- The `OnceCell` before and after, and the parameters. `info` is what bitcoind would answer.
  unfoldable pub network_params :
      Result BlockchainInfo String
      → Option NetworkParams
      → Option NetworkParams × Result NetworkParams ParamsError
  unfolding keep
  network_params info (some p) = (some p, ok p)
  network_params (err e) none = (none, err (unanswered e))
  network_params (ok info) none = keep (from_blockchain_info info)

  -- Either the parameters are had and are the same for good, whatever bitcoind would answer
  -- later, or an error is answered and nothing is kept.
  pub network_params_again :
      (info later : Result BlockchainInfo String) (cell : Option NetworkParams)
      → ((p : NetworkParams) × (network_params info cell ≡ (some p, ok p))
          × (network_params later (some p) ≡ (some p, ok p)))
        ⊎ ((e : ParamsError) × (network_params info cell ≡ (none, err e)))
  unfolding network_params keep
  network_params_again info later (some p) = inl (p, refl, refl)
  network_params_again (err e) later none = inr (unanswered e, refl)
  network_params_again (ok info) later none = elim (Result-cases (from_blockchain_info info)) [
    | inl (p, h) ↦ inl (p, rw (h, network_params, keep) refl, refl)
    | inr (e, h) ↦ inr (unusable e, rw (h, network_params, keep) refl)
  ]

  signet-bound :
      (challenge : Option Bytes) (p : NetworkParams)
      → ((bs : Bytes) → All (λ b. b < 256) (sha256d bs))
      → signet challenge ≡ ok p
      → (p.magic < 2 ^ 32) × (p.default_peer_port < 2 ^ 16)
  unfolding signet signet_magic
  signet-bound none p hash h = absurd (ok_err_clash (sym h))
  signet-bound (some c) p hash h = bounded p h (from_le_bytes-bound _ (hash _)) (omega arith)

  -- If the hash is made of bytes, the parameters that are read from a chain fit a u32 and a u16.
  pub from_blockchain_info-bound :
      (info : BlockchainInfo) (p : NetworkParams)
      → ((bs : Bytes) → All (λ b. b < 256) (sha256d bs))
      → from_blockchain_info info ≡ ok p
      → (p.magic < 2 ^ 32) × (p.default_peer_port < 2 ^ 16)
  unfolding from_blockchain_info signet signet_magic
  from_blockchain_info-bound info p hash h = elim (Bool-cases (str_eq info.chain "main")) [
    | inl c ↦ bounded p (rw (c, from_blockchain_info) at h) (omega arith) (omega arith)
    | inr c ↦ elim (Bool-cases (str_eq info.chain "test")) [
      | inl d ↦ bounded p (rw (c, d, from_blockchain_info) at h) (omega arith) (omega arith)
      | inr d ↦ elim (Bool-cases (str_eq info.chain "testnet4")) [
        | inl e ↦ bounded p (rw (c, d, e, from_blockchain_info) at h) (omega arith) (omega arith)
        | inr e ↦ elim (Bool-cases (str_eq info.chain "signet")) [
          | inl f ↦
              signet-bound info.signet_challenge p hash (rw (c, d, e, f, from_blockchain_info) at h)
          | inr f ↦ elim (Bool-cases (str_eq info.chain "regtest")) [
            | inl g ↦
                bounded p (rw (c, d, e, f, g, from_blockchain_info) at h) (omega arith)
                  (omega arith)
            | inr g ↦ absurd (ok_err_clash (sym (rw (c, d, e, f, g, from_blockchain_info) at h)))
          ]
        ]
      ]
    ]
  ]

-- ===== src/State/Chain.antt =====
-- state.rs: how the parameters of the network are had from what bitcoind sends.
use btc_rpc_proxy.Prelude.{
  ℕ, ◌+◌, ◌*◌, ◌<◌, ◌^◌, ◌≡◌, ◌≢◌, refl, inl, inr, false, Option, none, some, ◌∷◌, ◌++◌, length,
  String, Result, ok, err, All, Bool-cases,
}
use btc_rpc_proxy.Prelude.Text.{Bytes}
use btc_rpc_proxy.Json.{Value, Fields, object}
use btc_rpc_proxy.Client.Call.{Transport, IsDelivered, call}
use btc_rpc_proxy.Client.Response.Delivered.{Display, HasResult, answer, Reads, answer-HasResult}
use btc_rpc_proxy.RpcMethods.{get_blockchain_info, chain, own_request}
use btc_rpc_proxy.RpcMethods.Results.{
  Crates, blockchain_info, blockchain_info_values, blockchain_info_from,
}
use btc_rpc_proxy.RpcMethods.Results.Laws.{blockchain_info_from-Matches_iff}
use btc_rpc_proxy.Serde.Matches.{Matches}
use text.Mathlib.Text.{◌==◌ as str_eq}
use text.Mathlib.TextEquality.{eq_iff}
use btc_rpc_proxy.State.Network.{
  NetworkParams, NetworkError, missing_signet_challenge, unknown_chain, BlockchainInfo, ParamsError,
  unusable, from_le_bytes, signet_magic, from_blockchain_info, network_params,
  from_blockchain_info-bound,
}

-- The number whose bytes are these, on the wire of the bitcoin protocol.
abbrev wire : ℕ → ℕ → ℕ → ℕ → ℕ
wire a b c d = a + 256 * b + 65536 * c + 16777216 * d

-- The parameters of each chain that is known, and what is wrong with any other. The magic of a
-- signet is the first four bytes of the hash of its challenge behind the length of that.
pub data IsChain (sha256d : Bytes → Bytes) (var_int : ℕ → Bytes) (i : BlockchainInfo)
    : Result NetworkParams NetworkError → Type 0 where
  main :
      i.chain ≡ "main"
      → IsChain sha256d var_int i
          (ok (record { magic = wire 0xF9 0xBE 0xB4 0xD9; default_peer_port = 8333 }))
  test :
      i.chain ≡ "test"
      → IsChain sha256d var_int i
          (ok (record { magic = wire 0x0B 0x11 0x09 0x07; default_peer_port = 18333 }))
  testnet4 :
      i.chain ≡ "testnet4"
      → IsChain sha256d var_int i
          (ok (record { magic = wire 0x1C 0x16 0x3F 0x28; default_peer_port = 48333 }))
  signet :
      (challenge : Bytes) (a b c d : ℕ) (rest : Bytes)
      → i.chain ≡ "signet"
      → i.signet_challenge ≡ some challenge
      → sha256d (var_int (length challenge) ++ challenge) ≡ a ∷ b ∷ c ∷ d ∷ rest
      → IsChain sha256d var_int i (ok (record { magic = wire a b c d; default_peer_port = 38333 }))
  no_challenge :
      i.chain ≡ "signet"
      → i.signet_challenge ≡ none
      → IsChain sha256d var_int i (err missing_signet_challenge)
  regtest :
      i.chain ≡ "regtest"
      → IsChain sha256d var_int i
          (ok (record { magic = wire 0xFA 0xBF 0xB5 0xDA; default_peer_port = 18444 }))
  unknown :
      i.chain ≢ "main"
      → i.chain ≢ "test"
      → i.chain ≢ "testnet4"
      → i.chain ≢ "signet"
      → i.chain ≢ "regtest"
      → IsChain sha256d var_int i (err (unknown_chain i.chain))

-- What is kept and answered: the parameters, within their widths, or the error and nothing kept.
abbrev pub IsKept :
    Option NetworkParams × Result NetworkParams ParamsError
    → Result NetworkParams NetworkError
    → Type 0
IsKept (cell, answered) (ok p) =
    (cell ≡ some p) × (answered ≡ ok p) × (p.magic < 2 ^ 32) × (p.default_peer_port < 2 ^ 16)
IsKept (cell, answered) (err e) = (cell ≡ none) × (answered ≡ err (unusable e))

differs : (s t : String) → s ≢ t → str_eq s t ≡ false
differs s t n = elim (Bool-cases (str_eq s t)) [ inl e ↦ absurd (n ((eq_iff s t).0 e)) | inr e ↦ e ]

module _ (sha256d : Bytes → Bytes) (var_int : ℕ → Bytes) where
  IsChain-from_blockchain_info :
      (i : BlockchainInfo) (r : Result NetworkParams NetworkError)
      → IsChain sha256d var_int i r
      → from_blockchain_info sha256d var_int i ≡ r
  unfolding from_blockchain_info btc_rpc_proxy.State.Network.signet signet_magic from_le_bytes
  IsChain-from_blockchain_info i r (main c) = rw (c, from_blockchain_info) refl
  IsChain-from_blockchain_info i r (test c) = rw (c, from_blockchain_info) refl
  IsChain-from_blockchain_info i r (testnet4 c) = rw (c, from_blockchain_info) refl
  IsChain-from_blockchain_info i r (signet challenge a b c d rest n k h) =
      rw (n, k, h, from_blockchain_info, btc_rpc_proxy.State.Network.signet, signet_magic) refl
  IsChain-from_blockchain_info i r (no_challenge n k) = rw (n, k, from_blockchain_info) refl
  IsChain-from_blockchain_info i r (regtest c) = rw (c, from_blockchain_info) refl
  IsChain-from_blockchain_info i r (unknown m t f s g) =
      rw
        (
          differs i.chain "main" m,
          differs i.chain "test" t,
          differs i.chain "testnet4" f,
          differs i.chain "signet" s,
          differs i.chain "regtest" g,
          from_blockchain_info,
        )
        refl

  network_params-IsKept :
      (i : BlockchainInfo) (r : Result NetworkParams NetworkError)
      → ((bs : Bytes) → All (λ b. b < 256) (sha256d bs))
      → IsChain sha256d var_int i r
      → IsKept (network_params sha256d var_int (ok i) none) r
  unfolding network_params btc_rpc_proxy.State.Network.keep
  network_params-IsKept i (ok p) hash k =
      let e = IsChain-from_blockchain_info i (ok p) k in
      let (m, q) = from_blockchain_info-bound sha256d var_int i p hash e in rw e (refl, refl, m, q)
  network_params-IsKept i (err e) hash k =
      rw (IsChain-from_blockchain_info i (err e) k) (refl, refl)

module _ (d : Display) (x : Crates) (to : BlockchainInfo → Value) (sha256d : Bytes → Bytes)
    (var_int : ℕ → Bytes) where
  -- `network_params`, with the call of bitcoind.
  unfoldable pub network_params_by :
      Transport BlockchainInfo
      → Option NetworkParams
      → Option NetworkParams × Result NetworkParams ParamsError
  network_params_by t cell =
      network_params sha256d var_int
        (answer (blockchain_info_from x) to d
          (call t (own_request x.hash_to get_blockchain_info chain)))
        cell

  -- If nothing is kept yet and bitcoind delivers a body whose result is an object with the name
  -- of its chain, and its challenge or none, with no error and whatever else, and if the hash is
  -- made of bytes, then the magic and port of that chain, as the bitcoin protocol has them, are
  -- answered and kept, and fit a u32 and a u16, where for signet the hash has four bytes or
  -- more; or if the chain is not known, or is signet without a challenge, that error is answered
  -- and nothing is kept.
  pub network_params_by-IsChain :
      (t : Transport BlockchainInfo) (parse : Bytes → Result Value String) (status : ℕ)
      (body : Bytes) (fs : Fields) (i : BlockchainInfo) (r : Result NetworkParams NetworkError)
      → Reads (blockchain_info_from x) to d parse t
      → IsDelivered t (own_request x.hash_to get_blockchain_info chain) status body
      → HasResult parse body (object fs)
      → Matches (blockchain_info x) (blockchain_info_values x i) fs
      → ((bs : Bytes) → All (λ b. b < 256) (sha256d bs))
      → IsChain sha256d var_int i r
      → IsKept (network_params_by t none) r
  unfolding network_params_by
  network_params_by-IsChain t parse status body fs i r s l m c hash k =
      rw
        (
          answer-HasResult (blockchain_info_from x) to d parse t
              (own_request x.hash_to get_blockchain_info chain) status body (object fs) i s l m
              (λ e. absurd (cc)) ((blockchain_info_from-Matches_iff x fs i).1 c),
          network_params_by,
        )
        (network_params-IsKept sha256d var_int i r hash k)

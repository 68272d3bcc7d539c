-- ===== src/Client/Call.antt =====
-- client.rs: `RpcClient::call`, by which the proxy calls bitcoind itself, and its errors.
use btc_rpc_proxy.Prelude.{
  ℕ, ◌≡◌, refl, sym, none, some, String, Result, ok, err, ◌>>=◌, map_err, Result-cases,
  ok_err_clash, map_err-ok, inl, inr,
}
use btc_rpc_proxy.Prelude.Text.{Bytes, from_utf8}
use btc_rpc_proxy.Client.Rpc.{RpcRequest, RpcResponse, RpcError, misc_error_code}

pub data ClientError : Type 0 where
  serde load_auth hyper http : String → ClientError
  parse_response_utf8 :
      (method : String) (status : ℕ) (body : Bytes) (serde_error : String) → ClientError
  response_not_utf8 : (method : String) (status : ℕ) → ClientError

-- What hyper and serde_json do for one call. A response is a status and the outcome of its body.
pub record Transport (R : Type 0) : Type 0 where
  pub try_load : Result Bytes String
  pub to_string : RpcRequest → Result Bytes String
  pub build : Bytes → Bytes → Result Bytes String
  pub request : Bytes → Result (ℕ × Result Bytes String) String
  pub from_slice : Bytes → Result (RpcResponse R) String

-- A body that is no response, by whether it is text.
unfoldable pub bad_body : String → ℕ → Bytes → String → ClientError
bad_body method status body error = elim (from_utf8 body) [
  | some text ↦ parse_response_utf8 method status text error
  | none ↦ response_not_utf8 method status
]

-- `RpcError::from` a `ClientError`; `display` is its message.
unfoldable pub from_client_error : (ClientError → String) → ClientError → RpcError
from_client_error display e = record { code = misc_error_code; message = display e; status = none }

module _ {R : Type 0} (t : Transport R) (req : RpcRequest) where
  unfoldable pub call : Result (RpcResponse R) ClientError
  unfolding bad_body
  call = do
    auth ← map_err load_auth t.try_load
    text ← map_err serde (t.to_string req)
    built ← map_err http (t.build auth text)
    (status, received) ← map_err hyper (t.request built)
    body ← map_err hyper received
    map_err (bad_body req.method status body) (t.from_slice body)

  -- That a response with the body arrived for the request.
  pub record IsDelivered (status : ℕ) (body : Bytes) : Type 0 where
    pub auth : Bytes
    pub text : Bytes
    pub built : Bytes
    pub loaded : t.try_load ≡ ok auth
    pub written : t.to_string req ≡ ok text
    pub posted : t.build auth text ≡ ok built
    pub answered : t.request built ≡ ok (status, ok body)

  -- What arrives decides the outcome: what it is parsed as, or an error that has the method, the
  -- status and the body, if that is text.
  pub IsDelivered-call :
      (status : ℕ) (body : Bytes)
      → IsDelivered status body
      → call ≡ map_err (bad_body req.method status body) (t.from_slice body)
  unfolding call
  IsDelivered-call status body d = rw (d.loaded, d.written, d.posted, d.answered, call) refl

  -- A response that a call of bitcoind returns was parsed of a body that arrived for a request
  -- with the loaded authorization and the text of that call.
  pub call-IsDelivered :
      (r : RpcResponse R)
      → call ≡ ok r
      → (status : ℕ) × (body : Bytes) × IsDelivered status body × (t.from_slice body ≡ ok r)
  unfolding call
  call-IsDelivered r h = elim (Result-cases t.try_load) [
    | inr (e, a) ↦ absurd (ok_err_clash (sym (rw (a, call) at h)))
    | inl (auth, a) ↦ elim (Result-cases (t.to_string req)) [
      | inr (e, b) ↦ absurd (ok_err_clash (sym (rw (a, b, call) at h)))
      | inl (text, b) ↦ elim (Result-cases (t.build auth text)) [
        | inr (e, c) ↦ absurd (ok_err_clash (sym (rw (a, b, c, call) at h)))
        | inl (built, c) ↦ elim (Result-cases (t.request built)) [
          | inr (e, d) ↦ absurd (ok_err_clash (sym (rw (a, b, c, d, call) at h)))
          | inl ((status, err e), d) ↦ absurd (ok_err_clash (sym (rw (a, b, c, d, call) at h)))
          | inl ((status, ok body), d) ↦ (
            status,
            body,
            record {
              auth = auth;
              text = text;
              built = built;
              loaded = a;
              written = b;
              posted = c;
              answered = d;
            },
            map_err-ok (bad_body req.method status body) (t.from_slice body) r
                (rw (a, b, c, d, call) at h),
          )
        ]
      ]
    ]
  ]

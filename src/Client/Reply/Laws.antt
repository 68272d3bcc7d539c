-- ===== src/Client/Reply/Laws.antt =====
-- The shape and the status of the replies that the proxy writes itself.
use btc_rpc_proxy.Prelude.{
  ℕ, ◌≡◌, refl, ap, sym, subst, ◌∙◌, ◌≢◌, ◌↔◌, true, false, [], some_inj, arith, Option, not, ◌&&◌,
  none, some, Result, ok, String, if◌then◌else◌, Bool-cases, Option-cases, inl, inr,
}
use btc_rpc_proxy.Json.{Value, null, bool, number, string, array, object, as_str, member}
use btc_rpc_proxy.Client.Rpc.{
  RpcError, RpcRequest, RpcResponse, is_two, is_v2, is_notification, is_none,
}
use btc_rpc_proxy.Client.Reply.{
  error_value, or_null, error_or_null, reply_fields, own_status, status_ok, no_content,
  internal_server_error, Bytes, Response, into_reply, into_response_to, with_body, empty_body,
}
use mathlib.Core.Option
use text.Mathlib.TextEquality.{eq_iff}

-- A reply to a 2.0 request carries its version and exactly one of result and error; any other
-- reply carries both, null where there is none, and no version. Every reply carries the id of
-- the request, or null.
pub reply_fields-member :
    (r : RpcResponse Value) (req : RpcRequest)
    → (member "id" (reply_fields r req) ≡ some (or_null req.id))
      × (member "jsonrpc" (reply_fields r req) ≡ (if is_v2 req then some (string "2.0") else none))
      × (member "error" (reply_fields r req)
          ≡ (if is_v2 req then Option.map error_value r.error else some (error_or_null r.error)))
      × (member "result" (reply_fields r req)
          ≡ (if is_v2 req && not (is_none r.error) then none else some (or_null r.result)))
unfolding reply_fields member
reply_fields-member r req = elim (Bool-cases (is_v2 req)) [
  | inl v2 ↦ elim (Option-cases r.error) [
    | inl e ↦ rw (v2, e) (refl, refl, refl, refl)
    | inr (x, e) ↦ rw (v2, e) (refl, refl, refl, refl)
  ]
  | inr v1 ↦ rw v1 (refl, refl, refl, refl)
]

-- The status and the body of a reply, by its error and its request. A notification has no id and
-- is of version 2.0.
pub data IsReplied (error : Option RpcError) (req : RpcRequest) (text : Bytes)
    : ℕ → Bytes → Type 0 where
  own :
      (e : RpcError) (s : ℕ) → error ≡ some e → e.status ≡ some s → IsReplied error req text s text
  notified :
      ((e : RpcError) → error ≡ some e → e.status ≡ none)
      → req.id ≡ none
      → req.jsonrpc ≡ some (string "2.0")
      → IsReplied error req text 204 []
  failed :
      (e : RpcError)
      → error ≡ some e
      → e.status ≡ none
      → req.jsonrpc ≢ some (string "2.0")
      → IsReplied error req text 500 text
  failed_v2 :
      (e : RpcError)
      → error ≡ some e
      → e.status ≡ none
      → ¬ ((req.id ≡ none) × (req.jsonrpc ≡ some (string "2.0")))
      → req.jsonrpc ≡ some (string "2.0")
      → IsReplied error req text 200 text
  answered :
      error ≡ none
      → ¬ ((req.id ≡ none) × (req.jsonrpc ≡ some (string "2.0")))
      → IsReplied error req text 200 text

is_two_iff : (v : Value) → (is_two (as_str v) ≡ true) ↔ (v ≡ string "2.0")
unfolding is_two as_str
is_two_iff null = (λ h. absurd (cc), λ h. absurd (cc))
is_two_iff (bool b) = (λ h. absurd (cc), λ h. absurd (cc))
is_two_iff (number n) = (λ h. absurd (cc), λ h. absurd (cc))
is_two_iff (string s) = (λ h. ap string ((eq_iff s "2.0").0 h), λ h. (eq_iff s "2.0").1 (cc))
is_two_iff (array vs) = (λ h. absurd (cc), λ h. absurd (cc))
is_two_iff (object fs) = (λ h. absurd (cc), λ h. absurd (cc))

is_v2_iff : (req : RpcRequest) → (is_v2 req ≡ true) ↔ (req.jsonrpc ≡ some (string "2.0"))
unfolding is_v2
is_v2_iff req = elim (Option-cases req.jsonrpc) [
  | inl e ↦ (λ h. absurd (ground arith), λ h. absurd (cc))
  | inr (v, e) ↦ (
    λ h. e ∙ ap some ((is_two_iff v).0 (rw (e, is_v2) at h)),
    λ h. rw (e, is_v2) ((is_two_iff v).1 (some_inj (sym e ∙ h))),
  )
]

is_v2-false : (req : RpcRequest) → is_v2 req ≡ false → req.jsonrpc ≢ some (string "2.0")
is_v2-false req h e = absurd (ground (arith, (is_v2_iff req).1 e))

is_notification_lem :
    (req : RpcRequest)
    → is_notification req ≡ true
    → (req.id ≡ none) × (req.jsonrpc ≡ some (string "2.0"))
unfolding is_notification is_v2
is_notification_lem req h = elim (Option-cases req.id) [
  | inl i ↦ (i, (is_v2_iff req).0 (rw (i, is_notification) at h))
  | inr (id, i) ↦ absurd (ground arith)
]

not-is_notification :
    (req : RpcRequest)
    → is_notification req ≡ false
    → ¬ ((req.id ≡ none) × (req.jsonrpc ≡ some (string "2.0")))
unfolding is_notification
not-is_notification req h (i, v) =
    absurd (ground (arith, i, (is_v2_iff req).1 v, rw (i, is_notification) at h))

own_status_lem :
    {error : Option RpcError} (e : RpcError) → error ≡ some e → own_status error ≡ e.status
own_status_lem e p = rw p refl

none_status : {error : Option RpcError} → error ≡ none → own_status error ≡ none
none_status p = rw p refl

none_lem : {A : Type 0} {o : Option A} → o ≡ none → is_none o ≡ true
none_lem p = rw p refl

is_none_lem : {A : Type 0} {o : Option A} (a : A) → o ≡ some a → is_none o ≡ false
is_none_lem a p = rw p refl

-- If the reply serializes, there is a response, and its status is the own status of the error if
-- it has one, then 204 for a request of version 2.0 without an id, then 500 for an error to a
-- request that is not 2.0, and 200 for all else. Its body is the serialized reply, but empty for
-- a 204 to such a request.
pub into_response_to-IsReplied :
    (to_vec : Value → Result Bytes String) (r : RpcResponse Value) (req : RpcRequest) (body : Bytes)
    → to_vec (into_reply r req) ≡ ok body
    → (x : Response) × (into_response_to to_vec r req ≡ ok x)
      × IsReplied r.error req body x.status x.body
unfolding into_response_to
into_response_to-IsReplied to_vec r req body h = elim (Option-cases r.error) [
  | inl p ↦ elim (Bool-cases (is_notification req)) [
    | inl n ↦ (
      empty_body no_content,
      rw (p, n, into_response_to) refl,
      notified (λ e q. absurd (cc)) (is_notification_lem req n).0 (is_notification_lem req n).1,
    )
    | inr n ↦ (
      with_body status_ok body,
      rw (none_status p, n, none_lem p, h, into_response_to) refl,
      answered p (not-is_notification req n),
    )
  ]
  | inr (e, p) ↦ elim (Option-cases e.status) [
    | inr (s, o) ↦
        (with_body s body, rw (own_status_lem e p ∙ o, h, into_response_to) refl, own e s p o)
    | inl o ↦ elim (Bool-cases (is_notification req)) [
      | inl n ↦ (
        empty_body no_content,
        rw (own_status_lem e p ∙ o, n, into_response_to) refl,
        notified (λ e' q. subst (λ x. x.status ≡ none) (some_inj (sym p ∙ q)) o)
            (is_notification_lem req n).0 (is_notification_lem req n).1,
      )
      | inr n ↦ elim (Bool-cases (is_v2 req)) [
        | inr v ↦ (
          with_body internal_server_error body,
          rw (own_status_lem e p ∙ o, n, is_none_lem e p, v, h, into_response_to) refl,
          failed e p o (is_v2-false req v),
        )
        | inl v ↦ (
          with_body status_ok body,
          rw (own_status_lem e p ∙ o, n, is_none_lem e p, v, h, into_response_to) refl,
          failed_v2 e p o (not-is_notification req n) ((is_v2_iff req).0 v),
        )
      ]
    ]
  ]
]

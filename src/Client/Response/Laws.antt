-- ===== src/Client/Response/Laws.antt =====
-- client.rs: which objects are read as a response, and that a reply of the proxy is one.
use btc_rpc_proxy.Prelude.{
  ◌≡◌, ◌≢◌, refl, ap, subst, ◌∙◌, ◌↔◌, inl, inr, true, Option, none, some, Result, ok, bind-ok,
  ok_inj, Bool-cases, arith,
}
use btc_rpc_proxy.Json.{Value, Fields, null, bool, number, string, array, object, member}
use btc_rpc_proxy.Client.Rpc.{RpcRequest, RpcError, RpcResponse, is_v2}
use btc_rpc_proxy.Client.Request.{value_from}
use btc_rpc_proxy.Client.Reply.{error_value, or_null, error_or_null, reply_fields, into_reply}
use btc_rpc_proxy.Client.Response.{
  rpc_error, error_values, error_from, rpc_response, response_of, response_values, response_from,
}
use btc_rpc_proxy.Serde.{DecodeError, from_value, read, write}
use btc_rpc_proxy.Serde.Codecs.{
  string_from, Fits, signed_from-signed_to, optional_from, optional_from-some,
}
use btc_rpc_proxy.Serde.Laws.{read-Matches_iff}
use btc_rpc_proxy.Serde.Matches.{AreDistinct, Matches, count}
use btc_rpc_proxy.Serde.Written.{read-write}

rpc_error-AreDistinct : AreDistinct rpc_error
rpc_error-AreDistinct = ((refl, tt), (tt, tt))

-- An error of the proxy, as the client reads it: without the status.
abbrev pub unanswered : RpcError → RpcError
unanswered e = record e { status = none }

error_from-error_value :
    (e : RpcError) → Fits 63 e.code → error_from (error_value e) ≡ ok (unanswered e)
unfolding error_from error_value from_value write string_from
error_from-error_value e h =
    rw
      (read-write rpc_error (error_values e) rpc_error-AreDistinct
        (signed_from-signed_to 63 e.code h, (refl, tt)))
      refl

module _ {R : Type 0} (from : Value → Result R DecodeError) (to : R → Value) where
  rpc_response-AreDistinct : AreDistinct (rpc_response from to)
  rpc_response-AreDistinct = ((refl, (refl, tt)), ((refl, tt), (tt, tt)))

  -- The objects that are read as a response: they hold its three members once at most, in any
  -- order, and whatever else.
  pub response_from-Matches_iff :
      (fs : Fields) (r : RpcResponse R)
      → (response_from from to (object fs) ≡ ok r)
        ↔ Matches (rpc_response from to) (response_values from to r) fs
  unfolding response_from from_value
  response_from-Matches_iff fs r = (
    λ h.
        let (w, first, same) =
          bind-ok (read (rpc_response from to) fs) (λ w. ok (response_of from to w)) r h in
        (read-Matches_iff (rpc_response from to) (response_values from to r) fs
            rpc_response-AreDistinct).0
          (first ∙ ap (λ q. ok (response_values from to q)) (ok_inj same)),
    λ m.
        rw
          (
            (read-Matches_iff (rpc_response from to) (response_values from to r) fs
                  rpc_response-AreDistinct).1
                m,
            from_value,
          )
          refl,
  )

-- A value that may be `null`, as an `Option` is read from it.
abbrev pub seen : Option Value → Option Value
seen none = none
seen (some null) = none
seen (some v) = some v

or_null-seen : (o : Option Value) → optional_from value_from (or_null o) ≡ ok (seen o)
or_null-seen none = refl
or_null-seen (some null) = refl
or_null-seen (some (bool b)) = refl
or_null-seen (some (number n)) = refl
or_null-seen (some (string s)) = refl
or_null-seen (some (array vs)) = refl
or_null-seen (some (object fs)) = refl

abbrev pub seen_error : Option RpcError → Option RpcError
seen_error none = none
seen_error (some e) = some (unanswered e)

-- A result or an error, whose code fits an `i64`.
abbrev pub IsOne : Option RpcError → Option Value → Type 0
IsOne none result = Unit
IsOne (some e) result = Fits 63 e.code × (result ≡ none)

error_value-present : (e : RpcError) → error_value e ≢ null
unfolding error_value
error_value-present e h = absurd (cc)

error_or_null-seen :
    (o : Option RpcError) (result : Option Value)
    → IsOne o result
    → optional_from error_from (error_or_null o) ≡ ok (seen_error o)
error_or_null-seen none result h = refl
error_or_null-seen (some e) result h =
    optional_from-some error_from (error_value e) (error_value-present e)
    ∙ rw (error_from-error_value e h.0) refl

abbrev pub seen_reply : RpcResponse Value → RpcRequest → RpcResponse Value
seen_reply r req = record { id = seen req.id; error = seen_error r.error; result = seen r.result }

-- A reply of the proxy to a request of either version, with a result or an error whose code fits
-- an i64, is read by the type of the responses with that result or error, without its status,
-- and with the id of the request; a null is none.
pub into_reply-read :
    (r : RpcResponse Value) (req : RpcRequest)
    → IsOne r.error r.result
    → response_from value_from (λ v. v) (into_reply r req) ≡ ok (seen_reply r req)
unfolding into_reply count member
into_reply-read r req h =
    (response_from-Matches_iff value_from (λ v. v) (reply_fields r req) (seen_reply r req)).1
      (elim (Bool-cases (is_v2 req)) [
        | inl v ↦ by_error v r.error refl h
        | inr v ↦
            rw (v, reply_fields)
              (
                or_null-seen req.id,
                omega arith,
                (
                  error_or_null-seen r.error r.result h,
                  omega arith,
                  (or_null-seen r.result, omega arith, tt),
                ),
              )
      ])
  where
    by_error :
        is_v2 req ≡ true
        → (o : Option RpcError) → r.error ≡ o
        → IsOne r.error r.result
        → Matches
            (rpc_response value_from (λ v. v))
            (response_values value_from (λ v. v) (seen_reply r req))
            (reply_fields r req)
    by_error v none e g =
        rw (v, e, reply_fields)
          (
            or_null-seen req.id,
            omega arith,
            (refl, omega arith, (or_null-seen r.result, omega arith, tt)),
          )
    by_error v (some x) e g =
        let (fits, no_result) = subst (λ o. IsOne o r.result) e g in
        rw (v, e, reply_fields)
          (
            or_null-seen req.id,
            omega arith,
            (
              error_or_null-seen (some x) none (fits, refl),
              omega arith,
              (rw no_result refl, omega arith, tt),
            ),
          )

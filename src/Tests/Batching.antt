-- ===== src/Tests/Batching.antt =====
-- Batches of requests.
use btc_rpc_proxy.Prelude.{
  ℕ, ◌≡◌, refl, Bool, true, false, not, ◌&&◌, ◌⊎◌, inl, inr, Option, none, some, List, [], ◌∷◌,
  String, Result, ok, err, if◌then◌else◌,
}
use btc_rpc_proxy.Prelude.Int.{pos}
use btc_rpc_proxy.Json.{Value, string, number, int}
use btc_rpc_proxy.Client.Rpc.{RpcRequest, RpcResponse, RpcError, array, from_rpc_error}
use btc_rpc_proxy.Client.Reply.{Bytes, with_body, status_ok}
use btc_rpc_proxy.Client.Merge.{Itertools}
use btc_rpc_proxy.Client.Batch.{Call, Upstream, HttpAnswer, forwarded_send, send_batch, send_all}
use btc_rpc_proxy.Client.Batch.Order.{reply_to}
use btc_rpc_proxy.Client.Batch.Errors.{send_all-reply_to}
use mathlib.Core.List.{filter_map}
use mathlib.Core.List.Perm
use mathlib.Core.Option
use btc_rpc_proxy.Json.{member}
use btc_rpc_proxy.Client.Rpc.{is_v2, is_none}
use btc_rpc_proxy.Client.Reply.{
  Response, error_value, or_null, error_or_null, reply_fields, into_response_to,
}
use btc_rpc_proxy.Client.Reply.Laws.{reply_fields-member, IsReplied, into_response_to-IsReplied}

-- The function of the itertools crate.
unfoldable pub merge_by : {A : Type 0} → (A → A → Bool) → List A → List A → List A
merge_by p [] ys = ys
merge_by p (x ∷ xs) [] = x ∷ xs
merge_by p (x ∷ xs) (y ∷ ys) =
    let left = merge_by p xs (y ∷ ys) in
    let right = merge_by p (x ∷ xs) ys in if p x y then x ∷ left else y ∷ right

pub merge_by-nil : {A : Type 0} (p : A → A → Bool) (xs : List A) → merge_by p xs [] ≡ xs
unfolding merge_by
merge_by-nil p [] = refl
merge_by-nil p (x ∷ xs) = refl

pub merge_by-cons :
    {A : Type 0} (p : A → A → Bool) (x y : A) (xs ys : List A)
    → merge_by p (x ∷ xs) (y ∷ ys)
      ≡ (if p x y then x ∷ merge_by p xs (y ∷ ys) else y ∷ merge_by p (x ∷ xs) ys)
unfolding merge_by
merge_by-cons p x y xs ys = refl

pub merge_by-nil-left : {A : Type 0} (p : A → A → Bool) (ys : List A) → merge_by p [] ys ≡ ys
unfolding merge_by
merge_by-nil-left p ys = refl

abbrev pub itertools : {A : Type 0} → Itertools A
itertools = record {
  merge_by = merge_by;
  merge_by-nil-left = merge_by-nil-left;
  merge_by-nil-right = merge_by-nil;
  merge_by-cons = merge_by-cons;
}

abbrev request : ℕ → RpcRequest
request n = record {
  jsonrpc = some (string "2.0");
  id = some (number (int (pos n)));
  method = "uptime";
  params = array [];
}

abbrev forwarded : Call
forwarded = record { req = request 0; outcome = ok none }

abbrev intercepted : Call
intercepted = record {
  req = request 1;
  outcome = ok (some (record { id = none; error = none; result = some (string "own") }));
}

abbrev e : RpcError
e = record { code = pos 1; message = "no"; status = none }

abbrev denied : Call
denied = record { req = request 1; outcome = err e }

abbrev pub upstream : Upstream
upstream = record {
  parse_path = ok tt;
  try_load = ok [];
  from_parts = ok tt;
  to_string = λ reqs. ok [];
  request = λ authorization body. ok (record { status = 200; body = ok [] });
  from_slice = λ body. ok (string "theirs" ∷ []);
}

abbrev pub to_vec : Value → Result Bytes String
to_vec v = ok (1 ∷ [])

abbrev pub to_vec_all : List Value → Result Bytes String
to_vec_all vs = ok (2 ∷ [])

abbrev answer : RpcRequest → Value
answer req = string "theirs"

-- The second call finishes first.
send_all-reply_to_example :
    send_all itertools upstream to_vec to_vec_all
      (forwarded ∷ intercepted ∷ [])
      false
      ((1, intercepted) ∷ (0, forwarded) ∷ [])
    ≡ ok (with_body status_ok (2 ∷ []))
unfolding filter_map btc_rpc_proxy.Prelude.Keyed.enumerate btc_rpc_proxy.Client.Batch.exchange
    forwarded_send btc_rpc_proxy.Client.Batch.Order.answer_to
    btc_rpc_proxy.Client.Rpc.is_notification reply_to
send_all-reply_to_example =
    send_all-reply_to itertools upstream to_vec to_vec_all answer false
      (forwarded ∷ intercepted ∷ []) ((1, intercepted) ∷ (0, forwarded) ∷ []) (2 ∷ [])
      (Perm.swap (0, forwarded) (1, intercepted) []) ((_, refl), ((_, refl), tt)) refl refl

abbrev own : RpcResponse Value
own = record { id = none; error = none; result = some (string "own") }

reply_fields-member_example :
    (member "id" (reply_fields own (request 1)) ≡ some (or_null (request 1).id))
    × (member "jsonrpc" (reply_fields own (request 1))
        ≡ (if is_v2 (request 1) then some (string "2.0") else none))
    × (member "error" (reply_fields own (request 1)) ≡ (
        if is_v2 (request 1)
        then Option.map error_value own.error
        else some (error_or_null own.error)))
    × (member "result" (reply_fields own (request 1)) ≡ (
        if is_v2 (request 1) && not (is_none own.error) then none else some (or_null own.result)))
reply_fields-member_example = reply_fields-member own (request 1)

-- The error of a refusal has a status of its own.
abbrev refusal : RpcResponse Value
refusal = record {
  id = none;
  error = some (record { code = pos 1; message = "no"; status = some 403 });
  result = none;
}

into_response_to-IsReplied_example :
    (x : Response) × (into_response_to to_vec refusal (request 1) ≡ ok x)
    × IsReplied refusal.error (request 1) (1 ∷ []) x.status x.body
into_response_to-IsReplied_example =
    into_response_to-IsReplied to_vec refusal (request 1) (1 ∷ []) refl

-- ===== src/Tests/Digits.antt =====
-- Small stand-ins for the crates that read and write hashes and digits: a byte is as many strokes.
use btc_rpc_proxy.Prelude.{
  ℕ, zero, suc, ◌≡◌, refl, ap, ◌∙◌, [], ◌∷◌, String, Result, ok, err, ◌+◌, ◌==◌, if◌then◌else◌,
  arith,
}
use btc_rpc_proxy.Prelude.Int.{pos}
use btc_rpc_proxy.Prelude.Text.{Bytes}
use btc_rpc_proxy.Json.{Value, Items, nil, cons, number, int, array, from_u64}
use btc_rpc_proxy.Serde.{DecodeError, invalid_type}
use btc_rpc_proxy.RpcMethods.Results.{Crates}
use btc_rpc_proxy.RpcMethods.Blocks.Written.{AreSound}
use Prim.Native.Char.{code}
use Prim.Native.String.{String as Str}

abbrev strokes : ℕ → String → String
strokes zero s = Str.◌∷◌ "-" s
strokes (suc n) s = Str.◌∷◌ "|" (strokes n s)

abbrev encode : Bytes → String
encode [] = Str.[]
encode (b ∷ bs) = strokes b (encode bs)

abbrev bytes_after : ℕ → String → Bytes
bytes_after n Str.[] = []
bytes_after n (Str.◌∷◌ c s) =
    let more = bytes_after (suc n) s in
    let next = n ∷ bytes_after 0 s in if code c == 124 then more else next

bytes_after-strokes :
    (m n : ℕ) (s : String) → bytes_after m (strokes n s) ≡ (n + m) ∷ bytes_after 0 s
bytes_after-strokes m zero s = ap (λ k. k ∷ bytes_after 0 s) (omega arith)
bytes_after-strokes m (suc n) s =
    bytes_after-strokes (suc m) n s ∙ ap (λ k. k ∷ bytes_after 0 s) (omega arith)

bytes_after-encode : (b : Bytes) → bytes_after 0 (encode b) ≡ b
bytes_after-encode [] = refl
bytes_after-encode (n ∷ b) =
    bytes_after-strokes 0 n (encode b)
    ∙ ap (λ k. k ∷ bytes_after 0 (encode b)) (omega arith)
    ∙ ap (λ l. n ∷ l) (bytes_after-encode b)

abbrev items_to : Bytes → Items
items_to [] = nil
items_to (n ∷ b) = cons (from_u64 n) (items_to b)

abbrev items_from : Items → Bytes
items_from nil = []
items_from (cons (number (int (pos n))) vs) = n ∷ items_from vs
items_from (cons v vs) = []

items_from-items_to : (b : Bytes) → items_from (items_to b) ≡ b
items_from-items_to [] = refl
items_from-items_to (n ∷ b) = ap (λ l. n ∷ l) (items_from-items_to b)

abbrev hash_from : Value → Result Bytes DecodeError
hash_from (array vs) = ok (items_from vs)
hash_from v = err invalid_type

abbrev float_from : Value → Result ℕ DecodeError
float_from (number (int (pos n))) = ok n
float_from v = err invalid_type

abbrev pub crates : Crates
crates = record {
  hash_from = hash_from;
  hash_to = λ h. array (items_to h);
  float_from = float_from;
  float_to = from_u64;
  decode = λ s. ok (bytes_after 0 s);
  encode = encode;
}

pub crates-AreSound : AreSound crates
crates-AreSound = record {
  hash =
      λ h l. record { back = ap (λ b. ok b) (items_from-items_to h); present = λ e. absurd (cc) };
  hex = λ b. ap (λ c. ok c) (bytes_after-encode b);
}

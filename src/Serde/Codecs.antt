-- ===== src/Serde/Codecs.antt =====
-- How serde_json reads and writes the types of the standard library, as documented, and `HexBytes`
-- and `Either` of util.rs.
use btc_rpc_proxy.Prelude.{
  ℕ, ◌<◌, ◌^◌, ◌≡◌, ◌≢◌, refl, ap, Bool, Option, none, some, List, [], ◌∷◌, String, Result, ok, err,
  ◌>>=◌, map_err, map, ltb, lt→ltb, if◌then◌else◌, All,
}
use btc_rpc_proxy.Prelude.Int.{ℤ, pos, negsuc}
use btc_rpc_proxy.Prelude.Text.{Bytes}
use btc_rpc_proxy.Json.{Value, null, bool, number, int, string, array, object, from_u64}
use btc_rpc_proxy.Serde.{
  DecodeError, invalid_type, invalid_value, no_variant, Codec, to_list, from_list,
}
use btc_rpc_proxy.Util.{Either, left, right}
use text.Mathlib.Text.{◌==◌}

-- A field that has to be there.
abbrev pub required : {A : Type 0} → (Value → Result A DecodeError) → (A → Value) → Codec A
required from to = record { from = from; to = λ a. some (to a); missing = none }

-- `String`
unfoldable pub string_from : Value → Result String DecodeError
string_from (string s) = ok s
string_from _ = err invalid_type

unfoldable pub bool_from : Value → Result Bool DecodeError
bool_from (bool b) = ok b
bool_from _ = err invalid_type

-- An unsigned integer of so many bits: `u8`, `u32`, `usize`.
unfoldable pub unsigned_from : ℕ → Value → Result ℕ DecodeError
unsigned_from bits (number (int (pos n))) = if ltb n (2 ^ bits) then ok n else err invalid_value
unsigned_from bits (number (int (negsuc n))) = err invalid_value
unsigned_from bits _ = err invalid_type

-- A signed integer of so many bits behind its sign: `i32` has 31, `i64` has 63.
unfoldable pub signed_from : ℕ → Value → Result ℤ DecodeError
signed_from bits (number (int (pos n))) = if ltb n (2 ^ bits) then ok (pos n) else err invalid_value
signed_from bits (number (int (negsuc n))) =
    if ltb n (2 ^ bits) then ok (negsuc n) else err invalid_value
signed_from bits _ = err invalid_type

abbrev pub signed_to : ℤ → Value
signed_to z = number (int z)

-- `Option<T>`: a `null` is `None`, and so is a missing field.
abbrev pub optional_from :
    {A : Type 0} → (Value → Result A DecodeError) → Value → Result (Option A) DecodeError
optional_from f null = ok none
optional_from f v = f v >>= λ a. ok (some a)

abbrev pub optional_to : {A : Type 0} → (A → Value) → Option A → Value
optional_to f none = null
optional_to f (some a) = f a

abbrev pub optional : {A : Type 0} → (Value → Result A DecodeError) → (A → Value) → Codec (Option A)
optional from to = record {
  from = optional_from from;
  to = λ o. some (optional_to to o);
  missing = some none;
}

-- With `skip_serializing_if = "Option::is_none"`.
abbrev pub skip_none : {A : Type 0} → (A → Value) → Option A → Option Value
skip_none f none = none
skip_none f (some a) = some (f a)

unfoldable pub each_from :
    {A : Type 0} → (Value → Result A DecodeError) → List Value → Result (List A) DecodeError
each_from f [] = ok []
each_from f (v ∷ vs) = f v >>= λ a. each_from f vs >>= λ as'. ok (a ∷ as')

-- `Vec<T>`
unfoldable pub list_from :
    {A : Type 0} → (Value → Result A DecodeError) → Value → Result (List A) DecodeError
list_from f (array vs) = each_from f (to_list vs)
list_from f _ = err invalid_type

abbrev pub list_to : {A : Type 0} → (A → Value) → List A → Value
list_to f l = array (from_list (map f l))

-- `LinearSet<String>`: an element that is there is not put in again.
unfoldable pub push_new : String → List String → List String
push_new s [] = s ∷ []
push_new s (t ∷ ts) = let rest = t ∷ push_new s ts in if t == s then t ∷ ts else rest

unfoldable pub push_all : List String → List String → List String
push_all set [] = set
push_all set (s ∷ rest) = push_all (push_new s set) rest

unfoldable pub set_from : Value → Result (List String) DecodeError
set_from v = list_from string_from v >>= λ l. ok (push_all [] l)

-- `HexBytes`; the functions are those of the hex crate.
unfoldable pub hex_from : (String → Result Bytes String) → Value → Result Bytes DecodeError
hex_from decode (string s) = map_err (λ e. invalid_value) (decode s)
hex_from decode _ = err invalid_type

-- `Either`, which is untagged: the left type is tried first.
unfoldable pub either_from :
    {L R : Type 0}
    → (Value → Result L DecodeError)
    → (Value → Result R DecodeError)
    → Value
    → Result (Either L R) DecodeError
either_from l r v = elim (l v) [
  | ok a ↦ ok (left a)
  | err e ↦ elim (r v) [ ok b ↦ ok (right b) | err e' ↦ err no_variant ]
]

module _ {L R : Type 0} (l : Value → Result L DecodeError) (r : Value → Result R DecodeError)
    (v : Value) where
  pub either_from-left : (a : L) → l v ≡ ok a → either_from l r v ≡ ok (left a)
  unfolding either_from
  either_from-left a h = rw (h, either_from) refl

  pub either_from-right :
      (e : DecodeError) (b : R) → l v ≡ err e → r v ≡ ok b → either_from l r v ≡ ok (right b)
  unfolding either_from
  either_from-right e b h g = rw (h, g, either_from) refl

pub unsigned_from-from_u64 : (bits n : ℕ) → n < 2 ^ bits → unsigned_from bits (from_u64 n) ≡ ok n
unfolding unsigned_from
unsigned_from-from_u64 bits n h = rw (lt→ltb n (2 ^ bits) h, unsigned_from) refl

-- The integers that fit.
abbrev pub Fits : ℕ → ℤ → Type 0
Fits bits (pos n) = n < 2 ^ bits
Fits bits (negsuc n) = n < 2 ^ bits

pub signed_from-signed_to : (bits : ℕ) (z : ℤ) → Fits bits z → signed_from bits (signed_to z) ≡ ok z
unfolding signed_from
signed_from-signed_to bits (pos n) h = rw (lt→ltb n (2 ^ bits) h, signed_from) refl
signed_from-signed_to bits (negsuc n) h = rw (lt→ltb n (2 ^ bits) h, signed_from) refl

-- A way to write that is no `null` and is read back.
pub record IsWay {A : Type 0} (from : Value → Result A DecodeError) (to : A → Value) (a : A)
    : Type 0 where
  pub back : from (to a) ≡ ok a
  pub present : to a ≢ null

pub optional_from-some :
    {A : Type 0} (f : Value → Result A DecodeError) (v : Value)
    → v ≢ null
    → optional_from f v ≡ f v >>= λ a. ok (some a)
optional_from-some f null h = absurd (h refl)
optional_from-some f (bool b) h = refl
optional_from-some f (number n) h = refl
optional_from-some f (string s) h = refl
optional_from-some f (array vs) h = refl
optional_from-some f (object fs) h = refl

abbrev pub IsOptionalWay :
    {A : Type 0} → (Value → Result A DecodeError) → (A → Value) → Option A → Type 0
IsOptionalWay from to none = Unit
IsOptionalWay from to (some a) = IsWay from to a

pub optional_from-optional_to :
    {A : Type 0} (from : Value → Result A DecodeError) (to : A → Value) (o : Option A)
    → IsOptionalWay from to o
    → optional_from from (optional_to to o) ≡ ok o
optional_from-optional_to from to none h = refl
optional_from-optional_to from to (some a) h =
    rw (optional_from-some from (to a) h.present, h.back) refl

pub list_from-list_to :
    {A : Type 0} (from : Value → Result A DecodeError) (to : A → Value) (l : List A)
    → All (λ a. from (to a) ≡ ok a) l
    → list_from from (list_to to l) ≡ ok l
unfolding list_from each_from
list_from-list_to from to [] h = refl
list_from-list_to from to (a ∷ l) h = rw (h.0, list_from-list_to from to l h.1, each_from) refl

pub to_list-from_list : (vs : List Value) → to_list (from_list vs) ≡ vs
to_list-from_list [] = refl
to_list-from_list (v ∷ vs) = ap (λ l. v ∷ l) (to_list-from_list vs)

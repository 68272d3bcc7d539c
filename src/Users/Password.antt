-- ===== src/Users/Password.antt =====
-- users.rs, module `password`: the three kinds of password, and their comparison with a text.
-- What the file system and the lock answer during one comparison is a record of observations.
pub mod Xor
pub mod Laws
pub mod Cookie
use btc_rpc_proxy.Prelude.{
  ℕ, zero, suc, ◌+◌, ◌%◌, ◌≡◌, refl, Bool, true, false, not, ◌&&◌, ◌||◌, Option, none, some, List,
  [], ◌∷◌, leb, ◌==◌, if◌then◌else◌, length, get_elem?, Result, ok, err, ◌>>=◌, ok_or, bit_or,
  bit_xor,
}
use btc_rpc_proxy.Prelude.Text.{Bytes, bytes_eq, from_utf8, split_once, trim_end_matches}
use mathlib.Core.Option

-- A modification time, as a number of ticks.
abbrev pub SystemTime : Type 0
SystemTime = ℕ

abbrev pub Cached : Type 0
Cached = Option (SystemTime × Bytes)

pub data Password : Type 0 where
  cleartext : Bytes → Password
  hash : Bytes → Bytes → Password
  cookie_file : Cached → Password

-- `a % 0` panics in Rust.
pub data Panic : Type 0 where
  rem_by_zero : Panic

-- The steps of `cookie_password`, in order: the first `stat`, whether the read lock was given, the
-- read, the second `stat`, and whether the write lock was given.
pub record Observed : Type 0 where
  pub mtime : Option SystemTime
  pub can_read : Bool
  pub contents : Option Bytes
  pub mtime_after : Option SystemTime
  pub can_write : Bool

abbrev fresh : SystemTime → Cached → Option Bytes
fresh mtime none = none
fresh mtime (some (seen, password)) = if seen == mtime then some password else none

-- The cached password, if it may be used.
unfoldable pub from_cache : Observed → Cached → Option Bytes
from_cache o cached = elim o.mtime [
  | none ↦ none
  | some mtime ↦ if o.can_read then fresh mtime cached else none
]

unfoldable pub password_of : Bytes → Option Bytes
password_of contents = Option.map (λ p. p.1) (split_once b':' (trim_end_matches 10 contents))

unfoldable pub remember : Observed → Cached → Bytes → Cached
remember o cached password = elim o.mtime_after [
  | none ↦ cached
  | some mtime ↦ if o.can_write then some (mtime, password) else cached
]

unfoldable pub reread : Observed → Cached → Option Bytes → Cached × Option Bytes
reread o cached none = (cached, none)
reread o cached (some password) = (remember o cached password, some password)

-- The new cache, and the password, `none` on any failure to read one.
unfoldable pub cookie_password : Observed → Cached → Cached × Option Bytes
cookie_password o cached = elim (from_cache o cached) [
  | some password ↦ (cached, some password)
  | none ↦ reread o cached (Option.bind o.contents password_of)
]

byte_at : Bytes → ℕ → Result ℕ Panic
byte_at b i = elim (if length b == 0 then none else get_elem? b (i % length b)) [
  | none ↦ err rem_by_zero
  | some y ↦ ok y
]

xor_from : ℕ → Bytes → Bytes → ℕ → Result ℕ Panic
unfolding byte_at
xor_from i [] b acc = ok acc
xor_from i (x ∷ a) b acc = elim (byte_at b i) [
  | err e ↦ err e
  | ok y ↦ xor_from (suc i) a b (bit_or acc (bit_xor x y))
]

-- 0 if the two texts are the same; `i` counts the bytes of the first.
unfoldable pub xor_contents : Bytes → Bytes → Result ℕ Panic
unfolding xor_from
xor_contents a b = xor_from 0 a b (bit_xor (length a) (length b))

abbrev pub is_empty : Bytes → Bool
is_empty [] = true
is_empty (b ∷ s) = false

-- `timing safe equality`
unfoldable pub same_contents : Bytes → Bytes → Result Bool Panic
unfolding xor_contents
same_contents pw other = xor_contents pw other >>= λ bits. ok (bits == 0)

-- `hmac salt text`: the SHA-256 code, if a key can be made of the salt.
module _ (hmac : Bytes → Bytes → Option Bytes) where
  code_matches : Option Bytes → Bytes → Bool
  code_matches none expected = false
  code_matches (some code) expected = bytes_eq code expected

  cookie_matches : Option Bytes → Bytes → Result Bool Panic
  unfolding same_contents
  cookie_matches none other = ok false
  cookie_matches (some []) other = ok (is_empty other)
  cookie_matches (some (b ∷ pw)) other = same_contents (b ∷ pw) other

  -- `eq`, with the password as the comparison leaves it.
  unfoldable pub eq : Password → Observed → Bytes → Result Bool Panic × Password
  unfolding same_contents code_matches cookie_matches cookie_password from_cache password_of reread
      remember
  eq (cleartext []) o other = (ok (is_empty other), cleartext [])
  eq (cleartext (b ∷ pw)) o other = (same_contents (b ∷ pw) other, cleartext (b ∷ pw))
  eq (hash salt code) o other = (ok (code_matches (hmac salt other) code), hash salt code)
  eq (cookie_file cached) o other =
      let (cached', password) = cookie_password o cached in
      (cookie_matches password other, cookie_file cached')

pub data InvalidPasswordError : Type 0 where
  bad_char : (pos byte : ℕ) → InvalidPasswordError
  non_ascii : InvalidPasswordError

-- `validate_str`: the position and the value of the first byte that is no printable ASCII.
validate_from : ℕ → Bytes → Result (Unit {0}) InvalidPasswordError
validate_from pos [] = ok tt
validate_from pos (byte ∷ s) =
    let rest = validate_from (suc pos) s in
    if leb byte 0x1F || leb 0x7F byte then err (bad_char pos byte) else rest

unfoldable pub validate_str : Bytes → Result (Unit {0}) InvalidPasswordError
unfolding validate_from
validate_str s = validate_from 0 s

-- `Password::try_from`, which the configuration uses.
unfoldable pub try_from : Bytes → Result Password InvalidPasswordError
unfolding validate_str
try_from string = validate_str string >>= λ _. ok (cleartext string)

-- `parse_arg`, which the command line uses, on the bytes of an `OsStr`.
unfoldable pub parse_arg : Bytes → Result Password InvalidPasswordError
unfolding validate_str
parse_arg arg = do
  string ← ok_or (from_utf8 arg) non_ascii
  _ ← validate_str string
  ok (cleartext string)

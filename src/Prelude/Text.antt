-- ===== src/Prelude/Text.antt =====
-- Rust's `str` as its bytes: the methods of the standard library that the code calls.
use btc_rpc_proxy.Prelude.{
  ℕ, zero, suc, ◌≡◌, refl, ◌↔◌, ◌≢◌, Bool, true, false, ◌&&◌, Option, none, some, List, [], ◌∷◌,
  ◌++◌, arith, ltb, leb, lt→ltb, ◌<◌, ◌==◌, if◌then◌else◌, String, All,
}
use Prim.Native.Char.{code}
use Prim.Native.String.{String as Str}
use mathlib.Core.Option

abbrev pub Bytes : Type 0
Bytes = List ℕ

-- The bytes of an ASCII literal.
abbrev pub codes : String → Bytes
codes Str.[] = []
codes (Str.◌∷◌ c s) = code c ∷ codes s

unfoldable pub bytes_eq : Bytes → Bytes → Bool
bytes_eq [] [] = true
bytes_eq (a ∷ s) (b ∷ t) = a == b && bytes_eq s t
bytes_eq _ _ = false

pub bytes_eq_iff : (s t : Bytes) → (bytes_eq s t ≡ true) ↔ (s ≡ t)
unfolding bytes_eq
bytes_eq_iff [] [] = ground arith
bytes_eq_iff [] (b ∷ t) = ground arith
bytes_eq_iff (a ∷ s) [] = ground arith
bytes_eq_iff (a ∷ s) (b ∷ t) = ground (arith, bytes_eq_iff s t)

-- `split_once(c)`: at the first `c`, which is dropped.
unfoldable pub split_once : ℕ → Bytes → Option (Bytes × Bytes)
split_once c [] = none
split_once c (b ∷ s) =
    let rest = Option.map (λ p. (b ∷ p.0, p.1)) (split_once c s) in
    if b == c then some ([], s) else rest

all_of : ℕ → Bytes → Bool
all_of c [] = true
all_of c (b ∷ s) = b == c && all_of c s

-- `trim_end_matches(c)`: without the run of `c` at the end.
unfoldable pub trim_end_matches : ℕ → Bytes → Bytes
unfolding all_of
trim_end_matches c [] = []
trim_end_matches c (b ∷ s) =
    let rest = b ∷ trim_end_matches c s in if all_of c (b ∷ s) then [] else rest

-- `strip_prefix`
unfoldable pub strip_prefix : Bytes → Bytes → Option Bytes
strip_prefix [] s = some s
strip_prefix (a ∷ p) [] = none
strip_prefix (a ∷ p) (b ∷ s) = let rest = strip_prefix p s in if a == b then rest else none

-- `starts_with`
unfoldable pub starts_with : Bytes → Bytes → Bool
starts_with [] s = true
starts_with (a ∷ p) [] = false
starts_with (a ∷ p) (b ∷ s) = a == b && starts_with p s

abbrev between : ℕ → ℕ → ℕ → Bool
between lo b hi = leb lo b && leb b hi

-- Of a byte that opens a sequence: how many bytes follow, and the range of the first of them.
lead : ℕ → Option (ℕ × ℕ × ℕ)
lead b =
    if ltb b 0x80
    then some (0, 0x80, 0xBF)
    else if between 0xC2 b 0xDF
    then some (1, 0x80, 0xBF)
    else if b == 0xE0
    then some (2, 0xA0, 0xBF)
    else if b == 0xED
    then some (2, 0x80, 0x9F)
    else if between 0xE1 b 0xEF
    then some (2, 0x80, 0xBF)
    else if b == 0xF0
    then some (3, 0x90, 0xBF)
    else if between 0xF1 b 0xF3
    then some (3, 0x80, 0xBF)
    else if b == 0xF4
    then some (3, 0x80, 0x8F)
    else none

sequences : ℕ → ℕ → ℕ → Bytes → Bool
sequences zero lo hi [] = true
sequences (suc n) lo hi [] = false
sequences zero lo hi (b ∷ s) = elim (lead b) [
  | none ↦ false
  | some (n, lo', hi') ↦ sequences n lo' hi' s
]
sequences (suc n) lo hi (b ∷ s) = between lo b hi && sequences n 0x80 0xBF s

-- `std::str::from_utf8`
unfoldable pub from_utf8 : Bytes → Option Bytes
unfolding sequences lead
from_utf8 s = if sequences 0 0 0 s then some s else none

-- A text that `c` does not stand in, then `c`, then anything, is split at that `c`.
pub split_once-append :
    (c : ℕ) (name pass : Bytes)
    → All (λ b. b ≢ c) name
    → split_once c (name ++ (c ∷ pass)) ≡ some (name, pass)
unfolding split_once
split_once-append c [] pass h = ground arith
split_once-append c (b ∷ name) pass h = ground (arith, h.0, split_once-append c name pass h.1)

pub strip_prefix-append : (p s : Bytes) → strip_prefix p (p ++ s) ≡ some s
unfolding strip_prefix
strip_prefix-append [] s = refl
strip_prefix-append (a ∷ p) s = ground (arith, strip_prefix-append p s)

sequences_ascii : (lo hi : ℕ) (s : Bytes) → All (λ b. b < 0x80) s → sequences 0 lo hi s ≡ true
unfolding sequences lead
sequences_ascii lo hi [] h = refl
sequences_ascii lo hi (b ∷ s) h =
    rw (lt→ltb b 0x80 h.0, sequences, lead) (sequences_ascii 0x80 0xBF s h.1)

pub from_utf8_ascii : (s : Bytes) → All (λ b. b < 0x80) s → from_utf8 s ≡ some s
unfolding from_utf8
from_utf8_ascii s h = rw (sequences_ascii 0 0 s h, from_utf8) refl

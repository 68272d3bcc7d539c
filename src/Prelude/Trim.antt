-- ===== src/Prelude/Trim.antt =====
-- More of Rust's `str` on its bytes: `trim`, `lines`, and what looks at the end of a text.
use btc_rpc_proxy.Prelude.{
  Bool-cases, inl, inr, length, length-append, ap, ◌<◌, ◌≤◌, ℕ, zero, suc, ◌+◌, ◌/◌, ◌%◌, ◌≡◌, ◌≢◌,
  refl, Bool, ◌&&◌, ◌||◌, Option, none, some, List, [], ◌∷◌, ◌++◌, arith, leb, ◌==◌, if◌then◌else◌,
  All, any, true, false,
}
use btc_rpc_proxy.Prelude.Text.{Bytes, bytes_eq, bytes_eq_iff}

-- How many bytes the character of `White_Space` takes that a text starts with, 0 if it is another.
unfoldable pub white : Bytes → ℕ
white [] = 0
white (a ∷ []) = if (leb 9 a && leb a 13) || a == 32 then 1 else 0
white (a ∷ b ∷ []) =
    if (leb 9 a && leb a 13) || a == 32
    then 1
    else if a == 0xC2 && (b == 0x85 || b == 0xA0)
    then 2
    else 0
white (a ∷ b ∷ c ∷ s) =
    if (leb 9 a && leb a 13) || a == 32
    then 1
    else if a == 0xC2 && (b == 0x85 || b == 0xA0)
    then 2
    else if a == 0xE1 && (b == 0x9A && c == 0x80)
    then 3
    else if a == 0xE2
        && (b == 0x80 && (leb 0x80 c && leb c 0x8A || (c == 0xA8 || (c == 0xA9 || c == 0xAF))))
    then 3
    else if a == 0xE2 && (b == 0x81 && c == 0x9F)
    then 3
    else if a == 0xE3 && (b == 0x80 && c == 0x80)
    then 3
    else 0

-- The rest of a text behind the white space at its start; `skip` bytes of a character are to come.
trim_from : ℕ → Bytes → Bytes
trim_from skip [] = []
trim_from (suc skip) (b ∷ s) = trim_from skip s
trim_from zero (b ∷ s) = elim (white (b ∷ s)) [ zero ↦ b ∷ s | suc n ↦ trim_from n s ]

unfoldable pub trim_start : Bytes → Bytes
unfolding trim_from
trim_start s = trim_from 0 s

-- Without the white space at the end.
unfoldable pub trim_end : Bytes → Bytes
unfolding trim_start
trim_end [] = []
trim_end (b ∷ s) = let rest = b ∷ trim_end s in elim (trim_start (b ∷ s)) [ [] ↦ [] | _ ∷ _ ↦ rest ]

-- `str::trim`
unfoldable pub trim : Bytes → Bytes
trim s = trim_end (trim_start s)

push : ℕ → List Bytes → List Bytes
push b [] = (b ∷ []) ∷ []
push b (l ∷ ls) = (b ∷ l) ∷ ls

-- `str::lines`; the `\r` of a line that ends in `\r\n` is left to the caller's `trim`.
unfoldable pub lines : Bytes → List Bytes
unfolding push
lines [] = []
lines (b ∷ s) = let rest = lines s in if b == 10 then [] ∷ rest else push b rest

-- `str::contains` of one byte.
unfoldable pub contains : ℕ → Bytes → Bool
contains c s = any (λ b. b == c) s

-- `str::rsplit_once`: at the last `c`, which is dropped.
unfoldable pub rsplit_once : ℕ → Bytes → Option (Bytes × Bytes)
rsplit_once c [] = none
rsplit_once c (b ∷ s) = elim (rsplit_once c s) [
  | some (left, right) ↦ some (b ∷ left, right)
  | none ↦ if b == c then some ([], s) else none
]

-- `str::ends_with`
unfoldable pub ends_with : Bytes → Bytes → Bool
ends_with p [] = bytes_eq p []
ends_with p (b ∷ s) = bytes_eq p (b ∷ s) || ends_with p s

digit : ℕ → ℕ → ℕ
digit n d = b'0' + (n / d) % 10

significant : Bytes → Bytes
significant [] = []
significant (d ∷ []) = d ∷ []
significant (d ∷ e ∷ ds) = if d == b'0' then significant (e ∷ ds) else d ∷ e ∷ ds

-- A `u16` in decimal digits, as `Display` writes it.
unfoldable pub decimal : ℕ → Bytes
unfolding digit significant
decimal n = significant (digit n 10000 ∷ digit n 1000 ∷ digit n 100 ∷ digit n 10 ∷ digit n 1 ∷ [])

-- A byte that is an ASCII character and no white space.
abbrev pub IsVisible : ℕ → Type 0
IsVisible b = (0x20 < b) × (b < 0x7F)

white-IsVisible : (b : ℕ) (s : Bytes) → IsVisible b → white (b ∷ s) ≡ 0
unfolding white
white-IsVisible b [] h = ground arith
white-IsVisible b (c ∷ []) h = ground arith
white-IsVisible b (c ∷ d ∷ s) h = ground arith

trim_start-IsVisible : (b : ℕ) (s : Bytes) → IsVisible b → trim_start (b ∷ s) ≡ b ∷ s
unfolding trim_start trim_from
trim_start-IsVisible b s h = rw (white-IsVisible b s h, trim_from) refl

trim_end-IsVisible : (s : Bytes) → All IsVisible s → trim_end s ≡ s
unfolding trim_end
trim_end-IsVisible [] h = refl
trim_end-IsVisible (b ∷ s) h =
    rw (trim_start-IsVisible b s h.0, trim_end) (ap (λ t. b ∷ t) (trim_end-IsVisible s h.1))

-- A text that is all visible is trimmed.
pub trim-IsVisible : (s : Bytes) → All IsVisible s → trim s ≡ s
unfolding trim trim_start trim_from trim_end
trim-IsVisible [] h = refl
trim-IsVisible (b ∷ s) h = rw (trim_start-IsVisible b s h.0) (trim_end-IsVisible (b ∷ s) h)

-- A line without a newline, then a newline, then the rest.
pub lines-append : (l s : Bytes) → All IsVisible l → lines (l ++ (10 ∷ s)) ≡ l ∷ lines s
unfolding lines push
lines-append [] s h = refl
lines-append (b ∷ l) s h = ground (arith, lines-append l s h.1, h.0)

rsplit_once-none : (c : ℕ) (s : Bytes) → All (λ b. b ≢ c) s → rsplit_once c s ≡ none
unfolding rsplit_once
rsplit_once-none c [] h = refl
rsplit_once-none c (b ∷ s) h = rw (rsplit_once-none c s h.1, rsplit_once) (ground (arith, h.0))

-- The texts around the last `c` are the text.
pub rsplit_once-append :
    (c : ℕ) (left right : Bytes)
    → All (λ b. b ≢ c) right
    → rsplit_once c (left ++ (c ∷ right)) ≡ some (left, right)
unfolding rsplit_once
rsplit_once-append c [] right h = rw (rsplit_once-none c right h, rsplit_once) (ground arith)
rsplit_once-append c (b ∷ left) right h = rw (rsplit_once-append c left right h, rsplit_once) refl

pub All-append {ℓ κ} :
    {A : Type ℓ} (P : A → Type κ) (s t : List A) → All P s → All P t → All P (s ++ t)
All-append P [] t h k = k
All-append P (a ∷ s) t h k = (h.0, All-append P s t h.1 k)

-- A text that is put at the end is there.
pub ends_with-append : (p s : Bytes) → ends_with p (s ++ p) ≡ true
unfolding ends_with
ends_with-append [] [] = ground (arith, bytes_eq_iff [] [])
ends_with-append (a ∷ p) [] = rw ((bytes_eq_iff (a ∷ p) (a ∷ p)).1 refl, ends_with) refl
ends_with-append p (b ∷ s) = elim (Bool-cases (bytes_eq p (b ∷ (s ++ p)))) [
  | inl e ↦ rw (e, ends_with) refl
  | inr e ↦ rw (e, ends_with) (ends_with-append p s)
]

bytes_eq_short : (p s : Bytes) → length p < length s → bytes_eq p s ≡ false
bytes_eq_short p s h = elim (Bool-cases (bytes_eq p s)) [
  | inl e ↦ absurd (omega (arith, h, ap length ((bytes_eq_iff p s).0 e)))
  | inr e ↦ e
]

-- What stands before a text that is long enough does not count.
pub ends_with_long : (p s t : Bytes) → length p ≤ length t → ends_with p (s ++ t) ≡ ends_with p t
unfolding ends_with
ends_with_long p [] t h = refl
ends_with_long p (b ∷ s) t h =
    rw (bytes_eq_short p (b ∷ (s ++ t)) (omega (arith, h, length-append s t)), ends_with)
      (ends_with_long p s t h)

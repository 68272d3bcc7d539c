-- ===== src/Users/Password/Xor.antt =====
-- The fold over the exclusive ors is zero exactly for equal texts, and panics on an empty one.
use btc_rpc_proxy.Prelude.{
  ℕ, zero, suc, ◌%◌, ◌<◌, ◌≡◌, refl, ap, ap₂, ℕ_discrete, ◌↔◌, ◌≢◌, Bool, true, some, [], ◌∷◌, ◌++◌,
  arith, ◌==◌, length, get_elem?, ok, err, bit_or, bit_xor, length-append, ==_iff,
}
use btc_rpc_proxy.Prelude.Bits.{bit_or-eq_zero, bit_xor-eq_zero, bit_xor_self}
use btc_rpc_proxy.Prelude.Text.{Bytes}
use btc_rpc_proxy.Users.Password.{byte_at, xor_from, xor_contents, same_contents, rem_by_zero}
use mathlib.Core.List.{append_assoc, head-eq_of_cons-eq, tail-eq_of_cons-eq}
use mathlib.Core.Path.{subst₂}
use native.Mathlib.Nat.{mod-lt, mod-eq_of_lt}

get_elem?-some : (b : Bytes) (i : ℕ) → i < length b → (y : ℕ) × (get_elem? b i ≡ some y)
get_elem?-some [] i h = absurd (omega arith)
get_elem?-some (y ∷ b) zero h = (y, refl)
get_elem?-some (y ∷ b) (suc i) h = get_elem?-some b i (omega arith)

get_elem?-append : (pre b : Bytes) (y : ℕ) → get_elem? (pre ++ (y ∷ b)) (length pre) ≡ some y
get_elem?-append [] b y = refl
get_elem?-append (x ∷ pre) b y = get_elem?-append pre b y

-- A byte of a text that is not empty is found at every position.
byte_at_found : (b : Bytes) (i : ℕ) → b ≢ [] → (y : ℕ) × (byte_at b i ≡ ok y)
unfolding byte_at
byte_at_found [] i h = absurd (h refl)
byte_at_found (c ∷ b) i h =
    let (y, e) = get_elem?-some (c ∷ b) (i % length (c ∷ b)) (mod-lt i (omega arith)) in
    (y, ground (arith, e))

byte_at-append : (pre b : Bytes) (y : ℕ) → byte_at (pre ++ (y ∷ b)) (length pre) ≡ ok y
unfolding byte_at
byte_at-append pre b y =
    let e : length pre < length (pre ++ (y ∷ b)) = omega (arith, length-append pre (y ∷ b)) in
    ground (arith, mod-eq_of_lt e, get_elem?-append pre b y)

-- The fold never loses a difference.
xor_from_total :
    (i : ℕ) (a b : Bytes) (acc : ℕ)
    → b ≢ []
    → (v : ℕ) × (xor_from i a b acc ≡ ok v) × (v ≡ 0 → acc ≡ 0)
unfolding xor_from
xor_from_total i [] b acc h = (acc, refl, λ e. e)
xor_from_total i (x ∷ a) b acc h =
    let (y, found) = byte_at_found b i h in
    let (v, run, zero_lem) = xor_from_total (suc i) a b (bit_or acc (bit_xor x y)) h in
    (v, rw (found, xor_from) run, λ e. (bit_or-eq_zero acc (bit_xor x y) (zero_lem e)).0)

xor_zero : (m n : ℕ) → m ≡ n → bit_xor m n ≡ 0
xor_zero m n e = rw e (bit_xor_self n)

or_xor_zero : (acc x y : ℕ) → acc ≡ 0 → x ≡ y → bit_or acc (bit_xor x y) ≡ 0
or_xor_zero acc x y e h = rw (e, xor_zero x y h)

-- Over texts of one length it compares byte by byte.
xor_from_same :
    (pre a b : Bytes) (acc : ℕ)
    → length a ≡ length b
    → (v : ℕ) × (xor_from (length pre) a (pre ++ b) acc ≡ ok v) × ((v ≡ 0) ↔ ((acc ≡ 0) × (a ≡ b)))
unfolding xor_from
xor_from_same pre [] [] acc h = (acc, refl, (λ e. (e, refl), λ e. e.0))
xor_from_same pre [] (y ∷ b) acc h = absurd (omega arith)
xor_from_same pre (x ∷ a) [] acc h = absurd (omega arith)
xor_from_same pre (x ∷ a) (y ∷ b) acc h =
    let (v, run, iff) =
      xor_from_same (pre ++ (y ∷ [])) a b (bit_or acc (bit_xor x y)) (omega arith) in
    let e₁ : length (pre ++ (y ∷ [])) ≡ suc (length pre) =
      omega (arith, length-append pre (y ∷ [])) in
    let e₂ : (pre ++ (y ∷ [])) ++ b ≡ pre ++ (y ∷ b) = append_assoc pre (y ∷ []) b in
    let run' : xor_from (suc (length pre)) a (pre ++ (y ∷ b)) (bit_or acc (bit_xor x y)) ≡ ok v =
      subst₂ (λ n t. xor_from n a t (bit_or acc (bit_xor x y)) ≡ ok v) e₁ e₂ run in
    (
      v,
      rw (byte_at-append pre b y, xor_from) run',
      (
        λ e.
            let (z, tails) = iff.0 e in
            let (z₁, z₂) = bit_or-eq_zero acc (bit_xor x y) z in
            (z₁, ap₂ ◌∷◌ (bit_xor-eq_zero x y z₂) tails),
        λ h. iff.1 (or_xor_zero acc x y h.0 (head-eq_of_cons-eq h.1), tail-eq_of_cons-eq h.1),
      ),
    )

-- Against a text that is not empty the comparison does not panic, and answers whether the two
-- texts are the same.
pub same_contents_iff :
    (a b : Bytes) → b ≢ [] → (r : Bool) × (same_contents a b ≡ ok r) × ((r ≡ true) ↔ (a ≡ b))
unfolding same_contents
same_contents_iff a b h = elim (ℕ_discrete (length a) (length b)) [
  | yes e ↦
      let (v, run, iff) = xor_from_same [] a b (bit_xor (length a) (length b)) e in
      (
        v == 0,
        rw (run, xor_contents),
        (
          λ z. (iff.0 ((==_iff v 0).0 z)).1,
          λ z. (==_iff v 0).1 (iff.1 (xor_zero (length a) (length b) e, z)),
        ),
      )
  | no n ↦
      let (v, run, keeps) = xor_from_total 0 a b (bit_xor (length a) (length b)) h in
      (
        v == 0,
        rw (run, xor_contents),
        (
          λ z. absurd (n (bit_xor-eq_zero _ _ (keeps ((==_iff v 0).0 z)))),
          λ z. absurd (n (ap length z)),
        ),
      )
]

-- Against an empty text it panics, unless the other is empty too.
pub same_contents_panics : (c : ℕ) (a : Bytes) → same_contents (c ∷ a) [] ≡ err rem_by_zero
unfolding same_contents
same_contents_panics c a = refl

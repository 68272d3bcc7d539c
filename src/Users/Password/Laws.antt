-- ===== src/Users/Password/Laws.antt =====
-- What a comparison with a password of the configuration answers.
use btc_rpc_proxy.Prelude.{
  ℕ, suc, ◌<◌, ◌≡◌, refl, ◌↔◌, ◌≢◌, ◌⊎◌, inl, inr, Bool, true, false, ◌||◌, Option, [], ◌∷◌, arith,
  leb, ok, err, All, Bool-cases, ok_err_clash, sym, bind-ok, subst, Result, ◌>>=◌, ok_or,
}
use btc_rpc_proxy.Prelude.Text.{Bytes, from_utf8, from_utf8_ascii}
use btc_rpc_proxy.Users.Password.{
  cleartext, Observed, rem_by_zero, eq, validate_from, validate_str, try_from, parse_arg,
  InvalidPasswordError, non_ascii,
}
use btc_rpc_proxy.Users.Password.Xor.{same_contents_iff, same_contents_panics}

module _ (hmac : Bytes → Bytes → Option Bytes) (o : Observed) where
  -- A comparison with a text answers whether the texts are the same, unless that text is empty
  -- and the password is not.
  pub eq-cleartext_iff :
      (pw other : Bytes)
      → ((pw ≡ []) ⊎ (other ≢ []))
      → (r : Bool) × ((eq hmac (cleartext pw) o other).0 ≡ ok r) × ((r ≡ true) ↔ (pw ≡ other))
  unfolding eq
  eq-cleartext_iff [] [] h = (true, refl, (λ e. refl, λ e. refl))
  eq-cleartext_iff [] (c ∷ other) h = (false, refl, (λ e. absurd (cc), λ e. absurd (cc)))
  eq-cleartext_iff (b ∷ pw) other h = same_contents_iff (b ∷ pw) other (given h)
    where
      given : ((b ∷ pw ≡ []) ⊎ (other ≢ [])) → other ≢ []
      given (inl e) = absurd (cc)
      given (inr n) = n

  -- A comparison leaves a password of the configuration as it is.
  pub eq-cleartext_kept : (pw other : Bytes) → (eq hmac (cleartext pw) o other).1 ≡ cleartext pw
  unfolding eq
  eq-cleartext_kept [] other = refl
  eq-cleartext_kept (b ∷ pw) other = refl

  -- A password that is not empty, compared with the empty text, makes the comparison panic.
  pub eq-empty_panics : (pw : Bytes) → pw ≢ [] → (eq hmac (cleartext pw) o []).0 ≡ err rem_by_zero
  unfolding eq
  eq-empty_panics [] h = absurd (h refl)
  eq-empty_panics (b ∷ pw) h = same_contents_panics b pw

-- Neither a control character nor a byte from 0x7F on.
abbrev pub IsPrintable : ℕ → Type 0
IsPrintable b = (0x1F < b) × (b < 0x7F)

validate_from_iff : (pos : ℕ) (s : Bytes) → (validate_from pos s ≡ ok tt) ↔ All IsPrintable s
unfolding validate_from
validate_from_iff pos [] = (λ e. tt, λ h. refl)
validate_from_iff pos (b ∷ s) =
    let (to, from) = validate_from_iff (suc pos) s in
    elim (Bool-cases (leb b 0x1F || leb 0x7F b)) [
      | inl bad ↦ (λ e. absurd (ok_err_clash (sym (rw bad at e))), λ h. absurd (ground arith))
      | inr good ↦ (λ e. (ground arith, to (rw good at e)), λ h. rw good (from h.1))
    ]

printable_ascii : (s : Bytes) → All IsPrintable s → All (λ b. b < 0x80) s
printable_ascii [] h = tt
printable_ascii (b ∷ s) h = (ground arith, printable_ascii s h.1)

validated :
    (r : Result (Unit {0}) InvalidPasswordError) (s t : Bytes)
    → r >>= (λ _. ok (cleartext s)) ≡ ok (cleartext t)
    → (r ≡ ok tt) × (s ≡ t)
validated (ok u) s t h = (refl, cc)
validated (err e) s t h = absurd (ok_err_clash (sym h))

-- A password of the configuration, and one of the command line, is taken as it is exactly if all
-- its bytes are printable ASCII.
pub parse_arg-try_from_iff :
    (s : Bytes)
    → ((try_from s ≡ ok (cleartext s)) ↔ All IsPrintable s)
      × ((parse_arg s ≡ ok (cleartext s)) ↔ All IsPrintable s)
unfolding try_from parse_arg validate_str
parse_arg-try_from_iff s =
    let (to, from) = validate_from_iff 0 s in
    (
      (λ e. to (validated (validate_str s) s s e).0, λ h. rw (from h, try_from) refl),
      (
        λ e.
            let (t, _, e') =
              bind-ok (ok_or (from_utf8 s) non_ascii)
                (λ t. validate_str t >>= λ _. ok (cleartext t)) (cleartext s) e in
            let (valid, same) = validated (validate_str t) t s e' in
            subst (λ x. All IsPrintable x) same ((validate_from_iff 0 t).0 valid),
        λ h. rw (from_utf8_ascii s (printable_ascii s h), from h, parse_arg) refl,
      ),
    )

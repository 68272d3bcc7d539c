-- ===== src/Users/Login.antt =====
-- users.rs: `Users::get`, which reads an Authorization header, and its map of users.
use btc_rpc_proxy.Prelude.{
  ◌≡◌, refl, ◌≢◌, ◌⊎◌, inl, inr, Bool, true, false, Option, none, some, List, [], ◌∷◌, ◌++◌, arith,
  if◌then◌else◌, String, Result, ok, err, ◌>>=◌, All, Option-cases, ◌↔◌, ap, subst,
}
use btc_rpc_proxy.Prelude.Text.{
  Bytes, codes, bytes_eq, split_once, split_once-append, strip_prefix, strip_prefix-append,
  from_utf8,
}
use btc_rpc_proxy.Users.Password.{Password, cleartext, Observed, Panic, rem_by_zero, eq}
use btc_rpc_proxy.Users.Password.Laws.{eq-cleartext_iff, eq-empty_panics, eq-cleartext_kept}

pub record User : Type 0 where
  pub password : Password
  pub allowed_calls : Option (List String)
  pub fetch_blocks : Bool
  pub override_wallet : Option Bytes

-- `HashMap<String, User>`, which holds a name at most once.
abbrev pub Users : Type 0
Users = List (Bytes × User)

unfoldable pub find : Bytes → Users → Option User
find name [] = none
find name ((n, u) ∷ users) = let rest = find name users in if bytes_eq n name then some u else rest

-- The map with the user's entry replaced: the cookie's cache is written in place.
unfoldable pub replace : Bytes → User → Users → Users
replace name u [] = []
replace name u ((n, v) ∷ users) =
    let rest = (n, v) ∷ replace name u users in if bytes_eq n name then (n, u) ∷ users else rest

-- What `get` takes from the http, base64 and hmac crates.
pub record Codecs : Type 0 where
  pub to_str : Bytes → Option Bytes
  pub base64_decode : Bytes → Option Bytes
  pub hmac : Bytes → Bytes → Option Bytes

abbrev pub basic : Bytes
basic = codes "Basic "

abbrev pub and_then : {A B : Type 0} → Option A → (A → Option B) → Option B
and_then none f = none
and_then (some a) f = f a

module _ (c : Codecs) where
  -- The name and the password that a header holds.
  unfoldable pub credentials : Bytes → Option (Bytes × Bytes)
  credentials auth = and_then (c.to_str auth) λ header_str.
      and_then (strip_prefix basic header_str) λ auth.
        and_then (c.base64_decode auth) λ auth_decoded.
          and_then (from_utf8 auth_decoded) λ auth_decoded_str. split_once b':' auth_decoded_str

  -- The comparison of `filter`, and the map with the password as it leaves it.
  unfoldable pub check :
      Observed → Users → Bytes → Bytes → User → Result (Users × Option (Bytes × User)) Panic
  check o users name pass u =
      let (equal, password) = eq c.hmac u.password o pass in
      let u' = record u { password = password } in
      equal >>= λ same. ok (replace name u' users, if same then some (name, u') else none)

  unfoldable pub get : Observed → Users → Bytes → Result (Users × Option (Bytes × User)) Panic
  get o users auth = elim (credentials auth) [
    | none ↦ ok (users, none)
    | some (name, pass) ↦ elim (find name users) [
      | none ↦ ok (users, none)
      | some u ↦ check o users name pass u
    ]
  ]

  -- A header as a client writes it is read back: the name, which no colon stands in, and the password.
  pub credentials-header :
      (name pass encoded : Bytes)
      → c.to_str (basic ++ encoded) ≡ some (basic ++ encoded)
      → c.base64_decode encoded ≡ some (name ++ (b':' ∷ pass))
      → from_utf8 (name ++ (b':' ∷ pass)) ≡ some (name ++ (b':' ∷ pass))
      → All (λ b. b ≢ b':') name
      → credentials (basic ++ encoded) ≡ some (name, pass)
  unfolding credentials
  credentials-header name pass encoded p q r h =
      rw (p, strip_prefix-append basic encoded, q, r) (split_once-append b':' name pass h)

  check_sound :
      (o : Observed) (users : Users) (n pass name : Bytes) (u u' : User) (users' : Users)
      → check o users n pass u ≡ ok (users', some (name, u'))
      → (n ≡ name)
        × ((eq c.hmac u.password o pass).0 ≡ ok true)
        × (u' ≡ record u { password = (eq c.hmac u.password o pass).1 })
  unfolding check
  check_sound o users n pass name u u' users' h = ground arith

  -- Whoever is let in is a user of the map, by a header that holds that user's name and a text
  -- that the user's password compares equal to.
  pub get_sound :
      (o : Observed) (users : Users) (auth name : Bytes) (u' : User) (users' : Users)
      → get o users auth ≡ ok (users', some (name, u'))
      → (pass : Bytes) × (u : User) × (credentials auth ≡ some (name, pass))
        × (find name users ≡ some u)
        × ((eq c.hmac u.password o pass).0 ≡ ok true)
        × (u' ≡ record u { password = (eq c.hmac u.password o pass).1 })
  unfolding get
  get_sound o users auth name u' users' h = elim (Option-cases (credentials auth)) [
    | inl e ↦ absurd (ground arith)
    | inr (np, e) ↦ elim (Option-cases (find np.0 users)) [
      | inl f ↦ absurd (ground arith)
      | inr (u, f) ↦
          let (same, equal, after) =
            check_sound o users np.0 np.1 name u u' users' (ground arith) in
          (
            np.1,
            u,
            rw e (ap (λ n. some (n, np.1)) same),
            subst (λ n. find n users ≡ some u) same f,
            equal,
            after,
          )
    ]
  ]

  check-cleartext :
      (o : Observed) (users : Users) (name pass pw : Bytes) (u : User) (same : Bool)
      → (eq c.hmac (cleartext pw) o pass).0 ≡ ok same
      → check o users name pass (record u { password = cleartext pw })
        ≡ ok (
          replace name (record u { password = cleartext pw }) users,
          if same then some (name, record u { password = cleartext pw }) else none,
        )
  unfolding check
  check-cleartext o users name pass pw u same h = ground (arith, eq-cleartext_kept c.hmac o pw pass)

  -- A user with a password of the configuration is let in exactly by that password, if the text
  -- sent is not empty or the password is.
  pub get-cleartext_iff :
      (o : Observed) (users : Users) (auth name pass pw : Bytes) (u : User)
      → credentials auth ≡ some (name, pass)
      → find name users ≡ some (record u { password = cleartext pw })
      → ((pw ≡ []) ⊎ (pass ≢ []))
      → (users' : Users) × (r : Option (Bytes × User)) × (get o users auth ≡ ok (users', r))
        × ((r ≡ some (name, record u { password = cleartext pw })) ↔ (pw ≡ pass))
  unfolding get
  get-cleartext_iff o users auth name pass pw u e f h =
      let (same, compared, iff) = eq-cleartext_iff c.hmac o pw pass h in
      (
        replace name (record u { password = cleartext pw }) users,
        (if same then some (name, record u { password = cleartext pw }) else none),
        rw (e, f, get) (check-cleartext o users name pass pw u same compared),
        (
          λ k. iff.0 (let_in same (name, record u { password = cleartext pw }) k),
          λ k. rw (iff.1 k),
        ),
      )
    where
      let_in : (b : Bool) (v : Bytes × User) → (if b then some v else none) ≡ some v → b ≡ true
      let_in true v k = refl
      let_in false v k = absurd (cc)

  -- A header with the name of a user and an empty password makes the login panic if that user's
  -- password of the configuration is not empty.
  pub get-empty_panics :
      (o : Observed) (users : Users) (auth name pw : Bytes) (u : User)
      → credentials auth ≡ some (name, [])
      → find name users ≡ some (record u { password = cleartext pw })
      → pw ≢ []
      → get o users auth ≡ err rem_by_zero
  unfolding get check
  get-empty_panics o users auth name pw u e f h = rw (e, f, get, eq-empty_panics c.hmac o pw h)

-- ===== src/Start/Named.antt =====
-- create_state.rs: that the users that are read are those that the names stand for.
use btc_rpc_proxy.Prelude.{
  ◌≡◌, refl, sym, ap, ◌≢◌, ◌∙◌, ◌⊎◌, inl, inr, false, Option, none, some, List, [], ◌∷◌, String,
  Result, ok, err, Bool-cases, Option-cases, Result-cases, some_inj, ok_inj, ok_err_clash, arith,
  subst,
}
use btc_rpc_proxy.Prelude.Text.{Bytes, bytes_eq, bytes_eq_iff, split_once}
use btc_rpc_proxy.Prelude.Trim.{trim, lines}
use btc_rpc_proxy.Users.Password.{hash, cookie_file}
use btc_rpc_proxy.Start.Passthrough.{
  InputUsers, insert, find, rpcauth_line, add_rpcauth, passthrough_rpcauth, add_cookie,
  passthrough_rpccookie, with_file,
}
use btc_rpc_proxy.Start.Laws.{find-insert}
use btc_rpc_proxy.Start.Create.{Config, Crates, all_users}
use btc_rpc_proxy.Start.Sources.{
  bitcoind_user, HasCookie, HasRpcauth, IsLastRpcauth, StandsFor, by_cookie, by_rpcauth, by_config,
  here, later,
}

not-HasCookie :
    (name line : Bytes) (ls : List Bytes)
    → ((rest : Bytes) → split_once b':' (trim line) ≢ some (name, rest))
    → ¬ HasCookie name ls
    → ¬ HasCookie name (line ∷ ls)
not-HasCookie name line ls h n (here _ rest _ e) = absurd (h rest e)
not-HasCookie name line ls h n (later _ _ c) = absurd (n c)

not-HasRpcauth :
    (name line : Bytes) (ls : List Bytes)
    → ((salt code : Bytes) → rpcauth_line line ≢ some (name, salt, code))
    → ¬ HasRpcauth name ls
    → ¬ HasRpcauth name (line ∷ ls)
not-HasRpcauth name line ls h n (here _ salt code _ e) = absurd (h salt code e)
not-HasRpcauth name line ls h n (later _ _ c) = absurd (n c)

cookies_lem :
    (name : Bytes) (ls : List Bytes) (users : InputUsers)
    → (HasCookie name ls
        × (find name (passthrough_rpccookie ls users) ≡ some (bitcoind_user (cookie_file none))))
      ⊎ ((¬ HasCookie name ls) × (find name (passthrough_rpccookie ls users) ≡ find name users))
unfolding passthrough_rpccookie add_cookie
cookies_lem name [] users = inr (λ c. elim c [ ], refl)
cookies_lem name (line ∷ ls) users = elim (Option-cases (split_once b':' (trim line))) [
  | inl s ↦ elim (cookies_lem name ls users) [
    | inl (c, e) ↦ inl (later line ls c, rw (s, passthrough_rpccookie, add_cookie) e)
    | inr (n, e) ↦ inr (
      not-HasCookie name line ls (λ r h. absurd (cc)) n,
      rw (s, passthrough_rpccookie, add_cookie) e,
    )
  ]
  | inr ((uname, rest), s) ↦
      let new = bitcoind_user (cookie_file none) in
      elim (cookies_lem name ls (insert uname new users)) [
        | inl (c, e) ↦ inl (later line ls c, rw (s, passthrough_rpccookie, add_cookie) e)
        | inr (n, e) ↦ elim (Bool-cases (bytes_eq uname name)) [
          | inl same ↦ inl (
            here line rest ls (s ∙ ap (λ x. some (x, rest)) ((bytes_eq_iff uname name).0 same)),
            rw (s, passthrough_rpccookie, add_cookie)
                (e ∙ rw (find-insert name uname new users, same) refl),
          )
          | inr other ↦ inr (
            not-HasCookie name line ls (other_name uname rest s other) n,
            rw (s, passthrough_rpccookie, add_cookie)
                (e ∙ rw (find-insert name uname new users, other) refl),
          )
        ]
      ]
]
  where
    other_name :
        (uname rest : Bytes)
        → split_once b':' (trim line) ≡ some (uname, rest)
        → bytes_eq uname name ≡ false
        → (r : Bytes) → split_once b':' (trim line) ≢ some (name, r)
    other_name uname rest s other r h =
        absurd (ground (arith, (bytes_eq_iff uname name).1 (ap (λ x. x.0) (some_inj (sym s ∙ h)))))

module _ (hex_decode : Bytes → Result Bytes String) (name : Bytes) where
  -- What a run over the lines that succeeds has made of the name.
  rpcauths_lem :
      (ls : List Bytes) (users users' : InputUsers)
      → passthrough_rpcauth hex_decode ls users ≡ ok users'
      → ((salt : Bytes) × (code : Bytes) × (bytes : Bytes) × IsLastRpcauth name salt code ls
          × (hex_decode code ≡ ok bytes)
          × (find name users' ≡ some (bitcoind_user (hash salt bytes))))
        ⊎ ((¬ HasRpcauth name ls) × (find name users' ≡ find name users))
  unfolding passthrough_rpcauth add_rpcauth
  rpcauths_lem [] users users' h = inr (λ c. elim c [ ], ap (find name) (sym (ok_inj h)))
  rpcauths_lem (line ∷ ls) users users' h = elim (Option-cases (rpcauth_line line)) [
    | inl r ↦ elim (rpcauths_lem ls users users' (rw (r, passthrough_rpcauth, add_rpcauth) at h)) [
      | inl (salt, code, bytes, l, d, e) ↦ inl (salt, code, bytes, later line ls l, d, e)
      | inr (n, e) ↦ inr (not-HasRpcauth name line ls (λ s c q. absurd (cc)) n, e)
    ]
    | inr ((uname, salt, code), r) ↦ elim (Result-cases (hex_decode code)) [
      | inr (x, d) ↦ absurd (ok_err_clash (sym (rw (r, d, passthrough_rpcauth, add_rpcauth) at h)))
      | inl (bytes, d) ↦
          let added = insert uname (bitcoind_user (hash salt bytes)) users in
          elim (rpcauths_lem ls added users' (rw (r, d, passthrough_rpcauth, add_rpcauth) at h)) [
            | inl (salt', code', bytes', l, d', e) ↦
                inl (salt', code', bytes', later line ls l, d', e)
            | inr (n, e) ↦ elim (Bool-cases (bytes_eq uname name)) [
              | inl same ↦ inl (
                salt,
                code,
                bytes,
                here line ls (r ∙ ap (λ x. some (x, salt, code)) ((bytes_eq_iff uname name).0 same))
                    n,
                d,
                e ∙ rw (find-insert name uname (bitcoind_user (hash salt bytes)) users, same) refl,
              )
              | inr other ↦ inr (
                not-HasRpcauth name line ls
                    (λ s c q. absurd (
                      ground (
                        arith,
                        (bytes_eq_iff uname name).1 (ap (λ x. x.0) (some_inj (sym r ∙ q))),
                      )))
                    n,
                e ∙ rw (find-insert name uname (bitcoind_user (hash salt bytes)) users, other) refl,
              )
            ]
          ]
    ]
  ]

  auth_file :
      (file : Option (Result Bytes String)) (users users' : InputUsers)
      → with_file file (passthrough_rpcauth hex_decode) users ≡ ok users'
      → ((text : Bytes) × (salt : Bytes) × (code : Bytes) × (bytes : Bytes) × (file
            ≡ some (ok text))
          × IsLastRpcauth name salt code (lines text)
          × (hex_decode code ≡ ok bytes)
          × (find name users' ≡ some (bitcoind_user (hash salt bytes))))
        ⊎ (((text : Bytes) → file ≡ some (ok text) → ¬ HasRpcauth name (lines text))
            × (find name users' ≡ find name users))
  unfolding with_file
  auth_file none users users' h = inr (λ t e. absurd (cc), ap (find name) (sym (ok_inj h)))
  auth_file (some (err x)) users users' h = absurd (ok_err_clash (sym h))
  auth_file (some (ok text)) users users' h = elim (rpcauths_lem (lines text) users users' h) [
    | inl (salt, code, bytes, l, d, e) ↦ inl (text, salt, code, bytes, refl, l, d, e)
    | inr (n, e) ↦ inr (λ t q. subst (λ t. ¬ HasRpcauth name (lines t)) (ok_inj (some_inj q)) n, e)
  ]

  cookie_lem :
      (file : Option (Result Bytes String)) (users users' : InputUsers)
      → with_file file (λ ls us. ok (passthrough_rpccookie ls us)) users ≡ ok users'
      → ((text : Bytes) × (file ≡ some (ok text))
          × HasCookie name (lines text)
          × (find name users' ≡ some (bitcoind_user (cookie_file none))))
        ⊎ (((text : Bytes) → file ≡ some (ok text) → ¬ HasCookie name (lines text))
            × (find name users' ≡ find name users))
  unfolding with_file
  cookie_lem none users users' h = inr (λ t e. absurd (cc), ap (find name) (sym (ok_inj h)))
  cookie_lem (some (err x)) users users' h = absurd (ok_err_clash (sym h))
  cookie_lem (some (ok text)) users users' h = elim (cookies_lem name (lines text) users) [
    | inl (c, e) ↦ inl (text, refl, c, ap (find name) (sym (ok_inj h)) ∙ e)
    | inr (n, e) ↦ inr (
      λ t q. subst (λ t. ¬ HasCookie name (lines t)) (ok_inj (some_inj q)) n,
      ap (find name) (sym (ok_inj h)) ∙ e,
    )
  ]

module _ (k : Crates) (config : Config) where
  pub all_users-StandsFor :
      (users : InputUsers) (name : Bytes)
      → all_users k config ≡ ok users
      → StandsFor k.hex_decode config name (find name users)
  unfolding all_users
  all_users-StandsFor users name h =
      elim (Result-cases
        (with_file config.passthrough_rpcauth (passthrough_rpcauth k.hex_decode) config.user)) [
          | inr (e, a) ↦ absurd (ok_err_clash (sym (rw (a, all_users) at h)))
          | inl (users', a) ↦
              let stands = StandsFor k.hex_decode config name in
              elim (cookie_lem k.hex_decode name config.passthrough_rpccookie users' users
                (rw (a, all_users) at h)) [
                  | inl (text, f, c, e) ↦ subst stands (sym e) (by_cookie text f c)
                  | inr (n, e) ↦
                      elim (auth_file k.hex_decode name config.passthrough_rpcauth config.user
                        users' a) [
                          | inl (text, salt, code, bytes, f, l, d, q) ↦
                              subst stands (sym (e ∙ q)) (by_rpcauth text salt code bytes n f l d)
                          | inr (m, q) ↦ subst stands (sym (e ∙ q)) (by_config n m)
                        ]
                ]
        ]

  -- A file that cannot be read ends the start.
  pub all_users_read :
      (users : InputUsers) (e : String)
      → all_users k config ≡ ok users
      → (config.passthrough_rpcauth ≢ some (err e)) × (config.passthrough_rpccookie ≢ some (err e))
  unfolding all_users with_file
  all_users_read users e h = (
    λ q. absurd (ok_err_clash (sym (rw (q, all_users, with_file) at h))),
    λ q.
        elim (Result-cases
          (with_file config.passthrough_rpcauth (passthrough_rpcauth k.hex_decode) config.user)) [
            | inr (x, a) ↦ absurd (ok_err_clash (sym (rw (a, all_users) at h)))
            | inl (users', a) ↦ absurd (ok_err_clash (sym (rw (a, q, all_users, with_file) at h)))
          ],
  )

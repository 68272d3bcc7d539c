-- ===== src/Start/Laws.antt =====
-- create_state.rs: the users that are read back from the lines bitcoind's configuration writes.
use btc_rpc_proxy.Prelude.{
  ◌≡◌, ◌≢◌, refl, ◌∙◌, Bool, true, false, Option, none, some, List, [], ◌∷◌, ◌++◌, String, Result,
  ok, All, arith, if◌then◌else◌, Bool-cases, Option-cases, inl, inr,
}
use btc_rpc_proxy.Prelude.Text.{
  Bytes, bytes_eq, bytes_eq_iff, split_once-append, strip_prefix-append,
}
use btc_rpc_proxy.Prelude.Trim.{lines, IsVisible, trim-IsVisible, lines-append, All-append}
use btc_rpc_proxy.Users.Password.{hash}
use btc_rpc_proxy.Users.Config.{InputUser}
use btc_rpc_proxy.Start.Passthrough.{
  InputUsers, insert, find, rpcauth_key, rpcauth_line, passthrough_user, add_rpcauth,
  passthrough_rpcauth, with_file,
}

-- A user as bitcoind's `rpcauth` writes one: the code is `bytes` in hexadecimal.
pub record Rpcauth : Type 0 where
  pub name : Bytes
  pub salt : Bytes
  pub code : Bytes
  pub bytes : Bytes

unfoldable pub written : Rpcauth → Bytes
written u = rpcauth_key ++ (u.name ++ (b':' ∷ (u.salt ++ (b'$' ∷ u.code))))

unfoldable pub written_all : List Rpcauth → Bytes
written_all [] = []
written_all (u ∷ us) = written u ++ (10 ∷ written_all us)

-- The users one after the other, where a later one replaces an earlier one of its name.
unfoldable pub put_all : List Rpcauth → InputUsers → InputUsers
put_all [] users = users
put_all (u ∷ us) users = put_all us (insert u.name (passthrough_user (hash u.salt u.bytes)) users)

-- The last of the lines that has the name.
unfoldable pub last_of : Bytes → List Rpcauth → Option Rpcauth
last_of name [] = none
last_of name (u ∷ us) = elim (last_of name us) [
  | some w ↦ some w
  | none ↦ if bytes_eq u.name name then some u else none
]

-- The user that a name stands for: that line's, or without one the user of before.
unfoldable pub stands_for : InputUsers → Bytes → Option Rpcauth → Option InputUser
stands_for users name (some u) = some (passthrough_user (hash u.salt u.bytes))
stands_for users name none = find name users

pub find-insert :
    (name m : Bytes) (u : InputUser) (users : InputUsers)
    → find name (insert m u users) ≡ (if bytes_eq m name then some u else find name users)
unfolding find insert
find-insert name m u [] = refl
find-insert name m u ((n, v) ∷ users) = elim (Bool-cases (bytes_eq n m)) [
  | inl e ↦ rw (e, (bytes_eq_iff n m).0 e, insert, find) (ground arith)
  | inr e ↦ ground (
    arith,
    find-insert name m u users,
    bytes_eq_iff n m,
    bytes_eq_iff m name,
    bytes_eq_iff n name,
  )
]

find-put_all :
    (name : Bytes) (us : List Rpcauth) (users : InputUsers)
    → find name (put_all us users) ≡ stands_for users name (last_of name us)
unfolding put_all last_of stands_for
find-put_all name [] users = refl
find-put_all name (u ∷ us) users =
    let ih = find-put_all name us (insert u.name (passthrough_user (hash u.salt u.bytes)) users) in
    elim (Option-cases (last_of name us)) [
      | inr (w, e) ↦ rw (e, last_of) (rw e at ih)
      | inl e ↦
          rw (e, last_of)
            (rw (e, find-insert name u.name (passthrough_user (hash u.salt u.bytes)) users) at ih
              ∙ kept (bytes_eq u.name name))
    ]
  where
    kept :
        (same : Bool)
        → (if same then some (passthrough_user (hash u.salt u.bytes)) else find name users)
          ≡ stands_for users name (if same then some u else none)
    kept true = refl
    kept false = refl

module _ (hex_decode : Bytes → Result Bytes String) where
  pub record IsRpcauth (u : Rpcauth) : Type 0 where
    pub name_visible : All IsVisible u.name
    pub salt_visible : All IsVisible u.salt
    pub code_visible : All IsVisible u.code
    pub no_colon : All (λ b. b ≢ b':') u.name
    pub no_dollar : All (λ b. b ≢ b'$') u.salt
    pub decoded : hex_decode u.code ≡ ok u.bytes

  rest-IsVisible :
      (u : Rpcauth) → IsRpcauth u → All IsVisible (u.name ++ (b':' ∷ (u.salt ++ (b'$' ∷ u.code))))
  rest-IsVisible u h =
      All-append IsVisible u.name (b':' ∷ (u.salt ++ (b'$' ∷ u.code))) h.name_visible (
        (omega arith, omega arith),
        All-append IsVisible u.salt (b'$' ∷ u.code) h.salt_visible
            ((omega arith, omega arith), h.code_visible),
      )

  written-IsVisible : (u : Rpcauth) → IsRpcauth u → All IsVisible (written u)
  unfolding written
  written-IsVisible u h =
      All-append IsVisible rpcauth_key (u.name ++ (b':' ∷ (u.salt ++ (b'$' ∷ u.code))))
        (ground arith) (rest-IsVisible u h)

  rpcauth_line-written :
      (u : Rpcauth) → IsRpcauth u → rpcauth_line (written u) ≡ some (u.name, u.salt, u.code)
  unfolding rpcauth_line written
  rpcauth_line-written u h =
      rw
        (
          trim-IsVisible (written u) (written-IsVisible u h),
          strip_prefix-append rpcauth_key (u.name ++ (b':' ∷ (u.salt ++ (b'$' ∷ u.code)))),
          trim-IsVisible (u.name ++ (b':' ∷ (u.salt ++ (b'$' ∷ u.code)))) (rest-IsVisible u h),
          split_once-append b':' u.name (u.salt ++ (b'$' ∷ u.code)) h.no_colon,
          split_once-append b'$' u.salt u.code h.no_dollar,
        )
        refl

  lines-written :
      (us : List Rpcauth) (users : InputUsers)
      → All IsRpcauth us
      → passthrough_rpcauth hex_decode (lines (written_all us)) users ≡ ok (put_all us users)
  unfolding written_all put_all passthrough_rpcauth add_rpcauth lines
  lines-written [] users h = refl
  lines-written (u ∷ us) users h =
      rw
        (
          lines-append (written u) (written_all us) (written-IsVisible u h.0),
          passthrough_rpcauth,
          rpcauth_line-written u h.0,
          h.0.decoded,
        )
        (lines-written us (insert u.name (passthrough_user (hash u.salt u.bytes)) users) h.1)

  -- Reading a file of the lines that bitcoind takes for its users succeeds if the names, salts
  -- and codes are visible ASCII, no name has a colon, no salt a dollar sign, and the codes
  -- decode; a name then stands for the user of the last line that has it, or without one for the
  -- user of before.
  pub passthrough_rpcauth-written :
      (us : List Rpcauth) (users : InputUsers)
      → All IsRpcauth us
      → (users' : InputUsers) × (with_file
            (some (ok (written_all us)))
            (passthrough_rpcauth hex_decode)
            users
          ≡ ok users')
        × ((name : Bytes) → find name users' ≡ stands_for users name (last_of name us))
  unfolding with_file
  passthrough_rpcauth-written us users h =
      (put_all us users, lines-written us users h, λ name. find-put_all name us users)

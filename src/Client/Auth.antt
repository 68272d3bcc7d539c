-- ===== src/Client/Auth.antt =====
-- client.rs: `AuthSource`, by which the proxy authenticates itself to bitcoind.
use btc_rpc_proxy.Prelude.{
  ℕ, ◌≡◌, refl, sym, ap, ap₂, ◌∙◌, ==_iff, Bool-cases, ok_err_clash, inl, inr, Option, none, some,
  [], ◌∷◌, ◌++◌, String, Result, ok, err, ◌>>=◌, if◌then◌else◌, ◌==◌, Result-cases, ok_inj,
}
use btc_rpc_proxy.Prelude.Text.{Bytes, codes}

abbrev pub SystemTime : Type 0
SystemTime = ℕ

-- The cookie's file is no part of the value: what is read of it is an argument of each load.
pub data AuthSource : Type 0 where
  const : (username password header : Bytes) → AuthSource
  cookie_file : (cached : Option (SystemTime × Bytes)) → AuthSource

-- What a load sees of the file: the time of its last change, and its contents.
pub record FileSeen : Type 0 where
  pub modified : Result SystemTime String
  pub contents : Result Bytes String

-- One newline at the end is dropped.
unfoldable pub without_newline : Bytes → Bytes
without_newline [] = []
without_newline (b ∷ []) = if b == 10 then [] else b ∷ []
without_newline (b ∷ c ∷ bs) = b ∷ without_newline (c ∷ bs)

-- `base64_encode` is that crate's, `parse` makes a header's value of a text.
module _ (base64_encode : Bytes → Bytes) (parse : Bytes → Result Bytes String) where
  unfoldable pub from_config :
      Option Bytes → Option Bytes → Option (Unit {0}) → Result AuthSource String
  from_config (some username) (some password) none =
      parse (codes "Basic " ++ base64_encode (username ++ (b':' ∷ password))) >>= λ header.
      ok (const username password header)
  from_config none none (some cookie) = ok (cookie_file none)
  from_config none none none = err "missing authentication information"
  from_config (some _) (some _) (some _) =
      err "either a password and possibly a username or a cookie file must be specified"
  from_config (some _) none _ =
      err "either a password and possibly a username or a cookie file must be specified"
  from_config none (some _) _ =
      err "either a password and possibly a username or a cookie file must be specified"

  unfoldable pub load_from_file : FileSeen → Result Bytes String
  load_from_file seen = seen.contents >>= λ cookie. ok (base64_encode (without_newline cookie))

  -- A header made anew, and the source that keeps it.
  unfoldable pub load : FileSeen → SystemTime → AuthSource → AuthSource × Result Bytes String
  load seen modified source =
      elim (load_from_file seen >>= λ cookie. parse (codes "Basic " ++ cookie)) [
        | err e ↦ (source, err e)
        | ok header ↦ (cookie_file (some (modified, header)), ok header)
      ]

  by_time : FileSeen → SystemTime → Option (SystemTime × Bytes) → AuthSource × Result Bytes String
  by_time seen modified none = load seen modified (cookie_file none)
  by_time seen modified (some (at, header)) =
      let anew = load seen modified (cookie_file (some (at, header))) in
      if modified == at then (cookie_file (some (at, header)), ok header) else anew

  unfoldable pub try_load : FileSeen → AuthSource → AuthSource × Result Bytes String
  unfolding by_time
  try_load seen (const username password header) = (const username password header, ok header)
  try_load seen (cookie_file cached) = elim seen.modified [
    | err e ↦ (cookie_file cached, err e)
    | ok modified ↦ by_time seen modified cached
  ]

  load-kept :
      (seen : FileSeen) (modified : SystemTime) (source : AuthSource) (header : Bytes)
      → (load seen modified source).1 ≡ ok header
      → (load seen modified source).0 ≡ cookie_file (some (modified, header))
  unfolding load
  load-kept seen modified source header h =
      elim (Result-cases (load_from_file seen >>= λ cookie. parse (codes "Basic " ++ cookie))) [
        | inr (e, k) ↦ absurd (ok_err_clash (sym (rw (k, load) at h)))
        | inl (made, k) ↦
            rw (k, load) (ap (λ x. cookie_file (some (modified, x))) (ok_inj (rw (k, load) at h)))
      ]

  by_time-kept :
      (seen : FileSeen) (modified : SystemTime) (cached : Option (SystemTime × Bytes))
      (header : Bytes)
      → (by_time seen modified cached).1 ≡ ok header
      → (by_time seen modified cached).0 ≡ cookie_file (some (modified, header))
  unfolding by_time
  by_time-kept seen modified none header h = load-kept seen modified _ header h
  by_time-kept seen modified (some (at, old)) header h = elim (Bool-cases (modified == at)) [
    | inr n ↦ rw (n, by_time) (load-kept seen modified _ header (rw (n, by_time) at h))
    | inl y ↦
        rw (y, by_time)
          (ap₂ (λ t x. cookie_file (some (t, x))) (sym ((==_iff modified at).0 y))
            (ok_inj (rw (y, by_time) at h)))
  ]

  try_load-cached :
      (later : FileSeen) (modified : SystemTime) (header : Bytes)
      → later.modified ≡ ok modified
      → try_load later (cookie_file (some (modified, header)))
        ≡ (cookie_file (some (modified, header)), ok header)
  unfolding try_load by_time
  try_load-cached later modified header m =
      rw (m, (==_iff modified modified).1 refl, try_load, by_time) refl

  -- After a load of the authorization that succeeded, a later load that sees the same time of
  -- change of the file gives the same header and changes nothing, whatever the file then holds.
  pub try_load_again :
      (seen later : FileSeen) (source : AuthSource) (header : Bytes)
      → later.modified ≡ seen.modified
      → (try_load seen source).1 ≡ ok header
      → try_load later (try_load seen source).0 ≡ ((try_load seen source).0, ok header)
  unfolding try_load
  try_load_again seen later (const username password h) header m e =
      ap (λ r. (const username password h, r)) e
  try_load_again seen later (cookie_file cached) header m e = elim (Result-cases seen.modified) [
    | inr (f, k) ↦ absurd (ok_err_clash (sym (rw (k, try_load) at e)))
    | inl (modified, k) ↦
        let kept = by_time-kept seen modified cached header (rw (k, try_load) at e) in
        rw (k, kept, try_load) (try_load-cached later modified header (m ∙ k))
  ]

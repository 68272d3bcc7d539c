-- ===== src/Users/Password/Cookie.antt =====
-- The password of the cookie file, and its cache.
use btc_rpc_proxy.Prelude.{
  ◌≡◌, refl, sym, ◌∙◌, ◌≢◌, true, none, some, arith, Bool-cases, Option-cases, inl, inr,
}
use btc_rpc_proxy.Prelude.Text.{Bytes}
use btc_rpc_proxy.Users.Password.{
  Observed, Cached, SystemTime, from_cache, password_of, remember, reread, cookie_password,
}
use mathlib.Core.Option

-- `version t` is what the file held while `t` was its modification time.
module _ (version : SystemTime → Bytes) where
  -- The cached password is that of the file at the cached time.
  abbrev pub IsCurrent : Cached → Type 0
  IsCurrent none = Unit
  IsCurrent (some (t, password)) = password_of (version t) ≡ some password

  -- The file was there, with the time `t`, from the first `stat` to the second.
  pub record IsQuiet (t : SystemTime) (o : Observed) : Type 0 where
    pub mtime : o.mtime ≡ some t
    pub contents : o.contents ≡ some (version t)
    pub mtime_after : o.mtime_after ≡ some t

  from_cache-IsCurrent :
      (t : SystemTime) (o : Observed) (cached : Cached) {password : Bytes}
      → IsCurrent cached
      → o.mtime ≡ some t
      → from_cache o cached ≡ some password
      → password_of (version t) ≡ some password
  unfolding from_cache
  from_cache-IsCurrent t o none h e f = absurd (ground arith)
  from_cache-IsCurrent t o (some (seen, p)) h e f = ground arith

  remember-IsCurrent :
      (t : SystemTime) (o : Observed) (cached : Cached) (password : Bytes)
      → IsCurrent cached
      → o.mtime_after ≡ some t
      → password_of (version t) ≡ some password
      → IsCurrent (remember o cached password)
  unfolding remember
  remember-IsCurrent t o cached password h e f =
      rw e (elim (Bool-cases o.can_write) [ inl w ↦ rw w f | inr w ↦ rw w h ])

  -- While the cookie file is not replaced and the cached password is that of the file at the
  -- cached time, the password is the one that the file holds, whatever the locks do, and the
  -- cache stays right.
  pub cookie_password-IsQuiet :
      (t : SystemTime) (o : Observed) (cached : Cached)
      → IsQuiet t o
      → IsCurrent cached
      → ((cookie_password o cached).1 ≡ password_of (version t))
        × IsCurrent (cookie_password o cached).0
  unfolding cookie_password reread Option.bind remember
  cookie_password-IsQuiet t o cached q h = elim (Option-cases (from_cache o cached)) [
    | inr (p, hit) ↦
        rw (hit, cookie_password) (sym (from_cache-IsCurrent t o cached h q.mtime hit), h)
    | inl miss ↦ elim (Option-cases (password_of (version t))) [
      | inl bad ↦ rw (miss, q.contents, bad, cookie_password) (refl, h)
      | inr (p, good) ↦
          rw (miss, q.contents, good, cookie_password)
            (refl, remember-IsCurrent t o cached p h q.mtime_after good)
    ]
  ]

  -- A comparison that finds the file replaced between its read and its second `stat`.
  pub record IsReplaced (t t' : SystemTime) (o : Observed) (cached : Cached) : Type 0 where
    pub missed : from_cache o cached ≡ none
    pub contents : o.contents ≡ some (version t)
    pub mtime_after : o.mtime_after ≡ some t'
    pub can_write : o.can_write ≡ true

  replaced_cache :
      (t t' : SystemTime) (o : Observed) (cached : Cached) (p : Bytes)
      → IsReplaced t t' o cached
      → password_of (version t) ≡ some p
      → (cookie_password o cached).0 ≡ some (t', p)
  unfolding cookie_password reread remember Option.bind
  replaced_cache t t' o cached p r old =
      rw (r.missed, r.contents, old, r.mtime_after, r.can_write, cookie_password)

  from_cache_hit :
      (t : SystemTime) (o : Observed) (p : Bytes)
      → o.mtime ≡ some t
      → o.can_read ≡ true
      → from_cache o (some (t, p)) ≡ some p
  unfolding from_cache
  from_cache_hit t o p e f = ground arith

  -- If the file is replaced between the read and the second stat of a comparison that missed its
  -- cache and may write it, the next comparison, in which the new file stays and the cache may
  -- be read, uses the old password and not the one in the file.
  pub cookie_password_replaced :
      (t t' : SystemTime) (o o' : Observed) (cached : Cached) (p : Bytes)
      → IsReplaced t t' o cached
      → password_of (version t) ≡ some p
      → password_of (version t') ≢ some p
      → IsQuiet t' o'
      → o'.can_read ≡ true
      → ((cookie_password o' (cookie_password o cached).0).1 ≡ some p)
        × ((cookie_password o' (cookie_password o cached).0).1 ≢ password_of (version t'))
  unfolding cookie_password
  cookie_password_replaced t t' o o' cached p r old ne q can_read =
      let used : (cookie_password o' (cookie_password o cached).0).1 ≡ some p =
        rw (replaced_cache t t' o cached p r old) (hit_used t' o' p q can_read) in
      (used, λ e. ne (sym e ∙ used))
    where
      hit_used :
          (t : SystemTime) (o : Observed) (p : Bytes)
          → IsQuiet t o
          → o.can_read ≡ true
          → (cookie_password o (some (t, p))).1 ≡ some p
      hit_used t o p q c = rw (from_cache_hit t o p q.mtime c, cookie_password)

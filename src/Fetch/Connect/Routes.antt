-- ===== src/Fetch/Connect/Routes.antt =====
-- fetch_blocks.rs: which way a connection may take to a peer.
use btc_rpc_proxy.Prelude.{
  ℕ, ◌≡◌, refl, inl, inr, Bool, true, false, ◌||◌, Option, none, some, [], ◌∷◌, ◌++◌, ok, err, All,
  ◌≢◌, Bool-cases, arith, ok_inj, some_inj, subst,
}
use btc_rpc_proxy.Prelude.Text.{Bytes, codes, bytes_eq}
use btc_rpc_proxy.Prelude.Trim.{
  contains, decimal, rsplit_once-append, ends_with, ends_with-append, ends_with_long,
}
use btc_rpc_proxy.Fetch.Connect.{
  TorState, Route, direct, proxied, no_i2p_proxy, with_port, host_of, is_i2p, is_onion, by_i2p,
  by_tor, route,
}

-- Directly goes only what needs no proxy and what no proxy is set for, by the I2P proxy only an
-- I2P host, by Tor's only another one that is an onion service or when all others go by it.
pub data IsAllowed (tor : Option TorState) (i2p_proxy : Option Bytes) : Route → Type 0 where
  directly :
      (addr : Bytes)
      → is_i2p addr ≡ false
      → ((t : TorState) → tor ≡ some t → (t.only ≡ false) × (is_onion addr ≡ false))
      → IsAllowed tor i2p_proxy (direct addr)
  via_i2p :
      (proxy addr : Bytes)
      → is_i2p addr ≡ true
      → i2p_proxy ≡ some proxy
      → IsAllowed tor i2p_proxy (proxied proxy addr)
  via_tor :
      (t : TorState) (addr : Bytes)
      → is_i2p addr ≡ false
      → tor ≡ some t
      → (t.only || is_onion addr) ≡ true
      → IsAllowed tor i2p_proxy (proxied t.proxy addr)

abbrev pub target : Route → Bytes
target (direct addr) = addr
target (proxied proxy addr) = addr

any-append_right : (c : ℕ) (s t : Bytes) → contains c t ≡ true → contains c (s ++ t) ≡ true
unfolding contains
any-append_right c [] t h = h
any-append_right c (b ∷ s) t h = ground (arith, any-append_right c s t h)

pub with_port-contains : (port : ℕ) (addr : Bytes) → contains b':' (with_port port addr) ≡ true
unfolding with_port contains
with_port-contains port addr = elim (Bool-cases (contains b':' addr)) [
  | inl e ↦ rw (e, with_port) e
  | inr e ↦ rw (e, with_port) (any-append_right b':' addr (codes ":" ++ decimal port) refl)
]

off : (a b : Bool) → (a || b) ≡ false → (a ≡ false) × (b ≡ false)
off false false h = (refl, refl)
off false true h = absurd (cc)
off true b h = absurd (cc)

by_tor-IsAllowed :
    (tor : Option TorState) (i2p_proxy : Option Bytes) (addr : Bytes)
    → is_i2p addr ≡ false
    → IsAllowed tor i2p_proxy (by_tor tor addr) × (target (by_tor tor addr) ≡ addr)
unfolding by_tor
by_tor-IsAllowed none i2p_proxy addr h = (directly addr h (λ t e. absurd (cc)), refl)
by_tor-IsAllowed (some tor) i2p_proxy addr h = elim (Bool-cases (tor.only || is_onion addr)) [
  | inl e ↦ rw (e, by_tor) (via_tor tor addr h refl e, refl)
  | inr e ↦
      rw (e, by_tor)
        (
          directly addr h (λ t k.
              subst (λ (u : TorState). (u.only ≡ false) × (is_onion addr ≡ false)) (some_inj k)
                (off tor.only (is_onion addr) e)),
          refl,
        )
]

by_i2p-IsAllowed :
    (tor : Option TorState) (i2p_proxy : Option Bytes) (addr : Bytes) (r : Route)
    → is_i2p addr ≡ true
    → by_i2p i2p_proxy addr ≡ ok r
    → IsAllowed tor i2p_proxy r × (target r ≡ addr)
unfolding by_i2p
by_i2p-IsAllowed tor none addr r e h = absurd (cc)
by_i2p-IsAllowed tor (some proxy) addr r e h =
    subst (λ (r : Route). IsAllowed tor (some proxy) r × (target r ≡ addr)) (ok_inj h)
      (via_i2p proxy addr e refl, refl)

-- Every way that is chosen is allowed and leads to the address.
pub route-IsAllowed :
    (tor : Option TorState) (i2p_proxy : Option Bytes) (addr : Bytes) (r : Route)
    → route tor i2p_proxy addr ≡ ok r
    → IsAllowed tor i2p_proxy r × (target r ≡ addr)
unfolding route
route-IsAllowed tor i2p_proxy addr r h = elim (Bool-cases (is_i2p addr)) [
  | inl e ↦ by_i2p-IsAllowed tor i2p_proxy addr r e (rw (e, route) at h)
  | inr e ↦
      subst (λ (r : Route). IsAllowed tor i2p_proxy r × (target r ≡ addr))
        (ok_inj (rw (e, route) at h)) (by_tor-IsAllowed tor i2p_proxy addr e)
]

-- A host that is written with its port.
abbrev pub at_port : Bytes → Bytes → Bytes → Bytes
at_port name suffix port = (name ++ suffix) ++ (b':' ∷ port)

host_of-at_port :
    (name suffix port : Bytes)
    → All (λ b. b ≢ b':') port
    → host_of (at_port name suffix port) ≡ name ++ suffix
unfolding host_of
host_of-at_port name suffix port h =
    rw (rsplit_once-append b':' (name ++ suffix) port h, host_of) refl

onion_apart : ends_with (codes ".i2p") (codes ".onion") ≡ false
unfolding ends_with bytes_eq
onion_apart = refl

or_true : (b : Bool) → (b || true) ≡ true
or_true true = refl
or_true false = refl

-- If the port holds no colon, a name that ends in .i2p is reached by the I2P proxy if there is
-- one and is an error if there is none, and a name that ends in .onion is reached by the Tor
-- proxy if there is one.
pub route-at_port :
    (tor : Option TorState) (i2p_proxy : Option Bytes) (t : TorState) (proxy name port : Bytes)
    → All (λ b. b ≢ b':') port
    → (route tor (some proxy) (at_port name (codes ".i2p") port)
        ≡ ok (proxied proxy (at_port name (codes ".i2p") port)))
      × (route tor none (at_port name (codes ".i2p") port)
          ≡ err (no_i2p_proxy (at_port name (codes ".i2p") port)))
      × (route (some t) i2p_proxy (at_port name (codes ".onion") port)
          ≡ ok (proxied t.proxy (at_port name (codes ".onion") port)))
unfolding route is_i2p is_onion by_i2p by_tor
route-at_port tor i2p_proxy t proxy name port h = (
  rw (host_of-at_port name (codes ".i2p") port h, ends_with-append (codes ".i2p") name) refl,
  rw (host_of-at_port name (codes ".i2p") port h, ends_with-append (codes ".i2p") name) refl,
  rw
      (
        host_of-at_port name (codes ".onion") port h,
        ends_with_long (codes ".i2p") name (codes ".onion") (omega arith),
        onion_apart,
        ends_with-append (codes ".onion") name,
        or_true t.only,
      )
      refl,
)

-- ===== src/State/Peers.antt =====
-- fetch_blocks.rs, state.rs: the list of peers, and how old it may grow.
use btc_rpc_proxy.Prelude.{
  ℕ, ◌-◌, ◌≡◌, sym, arith, inl, inr, Bool, true, false, not, ◌&&◌, Option, none, some, List, [],
  ◌∷◌, Result, ok, err, ltb, if◌then◌else◌, Bool-cases, All, String, ◌++◌,
}
use mathlib.Core.List.{Mem, mem-cons}
use mathlib.Core.Logic.Or
use text.Mathlib.Text.{◌==◌ as str_eq}
use text.Mathlib.TextEquality.{eq_iff}

pub record PeerInfo : Type 0 where
  pub addr : String
  pub servicesnames : List String
  pub inbound : Bool

-- An `Instant` is a number of ticks.
pub record Peers : Type 0 where
  pub fetched : Option ℕ
  pub peers : List String

unfoldable pub new : Peers
new = record { fetched = none; peers = [] }

-- `stale`, at the instant `now`.
unfoldable pub stale : ℕ → Peers → ℕ → Bool
stale now p max_peer_age = elim p.fetched [ none ↦ true | some f ↦ ltb max_peer_age (now - f) ]

unfoldable pub is_empty : Peers → Bool
is_empty p = elim p.peers [ [] ↦ true | _ ∷ _ ↦ false ]

unfoldable pub has : String → List String → Bool
has s [] = false
has s (t ∷ ts) = let rest = has s ts in if str_eq t s then true else rest

-- The two filters of `updated`.
unfoldable pub is_usable : PeerInfo → Bool
is_usable p = not p.inbound && (has "NETWORK" p.servicesnames && has "WITNESS" p.servicesnames)

unfoldable pub usable : List PeerInfo → List String
usable [] = []
usable (p ∷ ps) = let rest = usable ps in if is_usable p then p.addr ∷ rest else rest

-- `updated`, from bitcoind's answer, at the instant `now`.
unfoldable pub updated : ℕ → Result (List PeerInfo) String → Result Peers String
updated now (err e) = err e
updated now (ok ps) = ok (record { fetched = some now; peers = usable ps })

-- What the update writes: a failed one leaves the list as it is.
unfoldable pub write : Result Peers String → Peers → Peers
write (ok latest) old = latest
write (err e) old = old

-- The peers of an update that is waited for.
unfoldable pub wait : Result Peers String → Result (List String) String
wait (ok latest) = ok latest.peers
wait (err e) = err e

-- `get_peers`: the list after it, and the peers. An update runs in the background, unless there
-- are no peers to go on with: then it is waited for. `done` says whether an update in the
-- background has already been written.
unfoldable pub get_peers :
    ℕ → ℕ → Bool → Result (List PeerInfo) String → Peers → Peers × Result (List String) String
get_peers now max_peer_age done answer p =
    let update = updated now answer in
    let after = write update p in
    if stale now p max_peer_age
    then (if is_empty p then (after, wait update) else (if done then after else p, ok p.peers))
    else (p, ok p.peers)

-- The address of a listed peer that bitcoind connected to itself, and that names among its
-- services blocks and their witnesses.
pub data IsSelected : List PeerInfo → String → Type 0 where
  first :
      (p : PeerInfo) (ps : List PeerInfo)
      → p.inbound ≡ false
      → Mem "NETWORK" p.servicesnames
      → Mem "WITNESS" p.servicesnames
      → IsSelected (p ∷ ps) p.addr
  later : (p : PeerInfo) (ps : List PeerInfo) (a : String) → IsSelected ps a → IsSelected (p ∷ ps) a

All-map :
    {P Q : String → Type 0} → ((a : String) → P a → Q a) → (l : List String) → All P l → All Q l
All-map f [] h = h
All-map f (a ∷ l) h = (f a h.0, All-map f l h.1)

IsSelected-left : (ps qs : List PeerInfo) (a : String) → IsSelected ps a → IsSelected (ps ++ qs) a
IsSelected-left [] qs a s = elim s [ ]
IsSelected-left (p ∷ ps) qs a (first _ _ o n w) = first p (ps ++ qs) o n w
IsSelected-left (p ∷ ps) qs a (later _ _ _ s) = later p (ps ++ qs) a (IsSelected-left ps qs a s)

IsSelected-right : (ps qs : List PeerInfo) (a : String) → IsSelected qs a → IsSelected (ps ++ qs) a
IsSelected-right [] qs a s = s
IsSelected-right (p ∷ ps) qs a s = later p (ps ++ qs) a (IsSelected-right ps qs a s)

has-Mem : (s : String) (ts : List String) → has s ts ≡ true → Mem s ts
unfolding has
has-Mem s [] h = absurd (cc)
has-Mem s (t ∷ ts) h = elim (Bool-cases (str_eq t s)) [
  | inl e ↦ mem-cons.1 (Or.inl (sym ((eq_iff t s).0 e)))
  | inr e ↦ mem-cons.1 (Or.inr (has-Mem s ts (rw (e, has) at h)))
]

is_usable_lem :
    (p : PeerInfo)
    → is_usable p ≡ true
    → (p.inbound ≡ false)
      × (has "NETWORK" p.servicesnames ≡ true)
      × (has "WITNESS" p.servicesnames ≡ true)
unfolding is_usable
is_usable_lem p h = (ground arith, ground arith, ground arith)

is_usable-IsSelected :
    (p : PeerInfo) (ps : List PeerInfo) → is_usable p ≡ true → IsSelected (p ∷ ps) p.addr
is_usable-IsSelected p ps h =
    let (o, n, w) = is_usable_lem p h in
    first p ps o (has-Mem "NETWORK" p.servicesnames n) (has-Mem "WITNESS" p.servicesnames w)

usable-IsSelected : (ps : List PeerInfo) → All (IsSelected ps) (usable ps)
unfolding usable
usable-IsSelected [] = tt
usable-IsSelected (p ∷ ps) =
    let rest = All-map (λ a s. later p ps a s) (usable ps) (usable-IsSelected ps) in
    elim (Bool-cases (is_usable p)) [
      | inl u ↦ rw (u, usable) (is_usable-IsSelected p ps u, rest)
      | inr u ↦ rw (u, usable) rest
    ]

-- The peers that an answer of bitcoind lists.
abbrev pub listed : Result (List PeerInfo) String → List PeerInfo
listed (ok ps) = ps
listed (err e) = []

-- The peers that a caller gets.
abbrev pub handed : Result (List String) String → List String
handed (ok handles) = handles
handed (err e) = []

module _ (seen : List PeerInfo) (p : Peers) (h : All (IsSelected seen) p.peers) where
  old-IsSelected : (ps : List PeerInfo) → All (IsSelected (ps ++ seen)) p.peers
  old-IsSelected ps = All-map (λ a s. IsSelected-right ps seen a s) p.peers h

  write-IsSelected :
      (now : ℕ) (answer : Result (List PeerInfo) String)
      → All (IsSelected (listed answer ++ seen)) (write (updated now answer) p).peers
  unfolding write updated
  write-IsSelected now (ok ps) =
      All-map (λ a s. IsSelected-left ps seen a s) (usable ps) (usable-IsSelected ps)
  write-IsSelected now (err e) = old-IsSelected []

  wait-IsSelected :
      (now : ℕ) (answer : Result (List PeerInfo) String)
      → All (IsSelected (listed answer ++ seen)) (handed (wait (updated now answer)))
  unfolding wait updated
  wait-IsSelected now (ok ps) =
      All-map (λ a s. IsSelected-left ps seen a s) (usable ps) (usable-IsSelected ps)
  wait-IsSelected now (err e) = tt

  -- Each peer that is kept or handed out was listed by bitcoind, then or before, as one that is
  -- not inbound and has NETWORK and WITNESS among its services, if this held of the peers kept
  -- before.
  pub get_peers-IsSelected :
      (now max_peer_age : ℕ) (done : Bool) (answer : Result (List PeerInfo) String)
      → All (IsSelected (listed answer ++ seen)) (get_peers now max_peer_age done answer p).0.peers
        × All
            (IsSelected (listed answer ++ seen))
            (handed (get_peers now max_peer_age done answer p).1)
  unfolding get_peers
  get_peers-IsSelected now max_peer_age done answer = elim (Bool-cases (stale now p max_peer_age)) [
    | inr s ↦ rw (s, get_peers) (old-IsSelected (listed answer), old-IsSelected (listed answer))
    | inl s ↦ elim (Bool-cases (is_empty p)) [
      | inl e ↦ rw (s, e, get_peers) (write-IsSelected now answer, wait-IsSelected now answer)
      | inr e ↦ elim (Bool-cases done) [
        | inl d ↦
            rw (s, e, d, get_peers) (write-IsSelected now answer, old-IsSelected (listed answer))
        | inr d ↦
            rw (s, e, d, get_peers) (old-IsSelected (listed answer), old-IsSelected (listed answer))
      ]
    ]
  ]

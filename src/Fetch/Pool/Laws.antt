-- ===== src/Fetch/Pool/Laws.antt =====
-- fetch_blocks.rs: that no connection is used twice, for another peer, or while a block is owed on it.
use btc_rpc_proxy.Prelude.{
  ℕ, ◌+◌, ◌≤◌, ◌≡◌, refl, ap, subst, sym, ◌∙◌, some, List, [], ◌∷◌, ◌++◌, map, length, get_elem?,
  All, arith,
}
use btc_rpc_proxy.Prelude.Text.{Bytes}
use btc_rpc_proxy.Prelude.Trim.{All-append}
use btc_rpc_proxy.Fetch.Pool.{
  Channel, closed, empty, full, Peer, PeerHandle, RecyclableConnection, new, try_recv, handle,
}
use btc_rpc_proxy.Fetch.Pool.Steps.{
  World, close, start, idle, idle_of, is_number, holders, addr_at, IsIdle, IsWell,
}
use btc_rpc_proxy.Fetch.Pool.Counts.{
  uses_less, uses-append, uses-middle, All-middle, All-insert, All-map, addr_of, map-middle,
  addr_at-middle, addr_at-append,
}

abbrev pub IsIdlePeer : Peer → Type 0
IsIdlePeer p = IsIdle p.addr (idle p)

abbrev pub IsTaken : List Peer → PeerHandle → Type 0
IsTaken peers h = IsIdle h.addr h.conn × (addr_at peers h.send ≡ some h.addr)

abbrev pub IsAsked : List Peer → RecyclableConnection → Type 0
IsAsked peers r = (r.conn.unanswered ≡ 1) × (addr_at peers r.send ≡ some r.conn.addr)

-- Where each channel's address stays what it was, the handles and the fetches stay right.
pub IsTaken-kept :
    (l m : List Peer) (hs : List PeerHandle)
    → ((i : ℕ) (addr : Bytes) → addr_at l i ≡ some addr → addr_at m i ≡ some addr)
    → All (IsTaken l) hs
    → All (IsTaken m) hs
IsTaken-kept l m hs keep h = All-map (λ x k. (k.0, keep x.send x.addr k.1)) hs h

pub IsAsked-kept :
    (l m : List Peer) (rs : List RecyclableConnection)
    → ((i : ℕ) (addr : Bytes) → addr_at l i ≡ some addr → addr_at m i ≡ some addr)
    → All (IsAsked l) rs
    → All (IsAsked m) rs
IsAsked-kept l m rs keep h = All-map (λ x k. (k.0, keep x.send x.conn.addr k.1)) rs h

pub same_addrs :
    (l m : List Peer)
    → map addr_of m ≡ map addr_of l
    → (i : ℕ) (addr : Bytes) → addr_at l i ≡ some addr
    → addr_at m i ≡ some addr
same_addrs l m e i addr h = ap (λ l. get_elem? l i) e ∙ h

pub start-IsWell : IsWell start
unfolding holders
start-IsWell = record {
  single = λ id. omega arith;
  fresh = λ id h. omega arith;
  idle_peers = tt;
  taken_peers = tt;
  asked_peers = tt;
}

-- A step after which each connection is held in no more places, and whose number is not lower.
pub fewer :
    (v w : World)
    → ((id : ℕ) → holders w id ≤ holders v id)
    → v.next ≡ w.next
    → IsWell v
    → ((id : ℕ) → holders w id ≤ 1) × ((id : ℕ) → w.next ≤ id → holders w id ≡ 0)
fewer v w less e h = (
  λ id. omega (arith, less id, h.single id),
  λ id k. omega (arith, less id, h.fresh id (omega arith)),
)

pub listed-IsWell :
    (w : World) (addr : Bytes) → IsWell w → IsWell (record w { peers = w.peers ++ (new addr ∷ []) })
unfolding holders new
listed-IsWell w addr h =
    let (one, fresh) =
      fewer w (record w { peers = w.peers ++ (new addr ∷ []) })
        (λ id. omega (arith, uses-append idle id w.peers (new addr ∷ []))) refl h in
    record {
      single = one;
      fresh = fresh;
      idle_peers = All-append IsIdlePeer w.peers (new addr ∷ []) h.idle_peers (tt, tt);
      taken_peers =
          IsTaken-kept w.peers _ w.handles (λ i a k. addr_at-append w.peers _ i a k) h.taken_peers;
      asked_peers =
          IsAsked-kept w.peers _ w.fetching (λ i a k. addr_at-append w.peers _ i a k) h.asked_peers;
    }

-- One peer's channel changes, and the peer's address does not.
changed-addrs :
    (w : World) (a : List Peer) (p q : Peer) (b : List Peer)
    → w.peers ≡ a ++ (p ∷ b)
    → p.addr ≡ q.addr
    → (i : ℕ) (addr : Bytes) → addr_at w.peers i ≡ some addr
    → addr_at (a ++ (q ∷ b)) i ≡ some addr
changed-addrs w a p q b e s =
    same_addrs w.peers (a ++ (q ∷ b)) (map-middle a p q b s ∙ ap (map addr_of) (sym e))

changed-idle :
    (w : World) (a : List Peer) (p q : Peer) (b : List Peer)
    → w.peers ≡ a ++ (p ∷ b)
    → (IsIdlePeer p → IsIdlePeer q)
    → IsWell w
    → All IsIdlePeer (a ++ (q ∷ b))
changed-idle w a p q b e f h =
    let (ip, rest) = All-middle IsIdlePeer a p b (subst (All IsIdlePeer) e h.idle_peers) in
    All-insert IsIdlePeer a q b (f ip) rest

pub dropped-IsWell :
    (w : World) (a : List Peer) (p : Peer) (b : List Peer)
    → w.peers ≡ a ++ (p ∷ b)
    → IsWell w
    → IsWell (record w { peers = a ++ (close p ∷ b) })
unfolding holders
dropped-IsWell w a p b e h =
    let (one, fresh) =
      fewer w (record w { peers = a ++ (close p ∷ b) })
        (λ id. omega (arith, uses_less idle id a p b w.peers e, uses-middle idle id a (close p) b))
        refl h in
    record {
      single = one;
      fresh = fresh;
      idle_peers = changed-idle w a p (close p) b e (λ k. tt) h;
      taken_peers =
          IsTaken-kept w.peers _ w.handles (changed-addrs w a p (close p) b e refl) h.taken_peers;
      asked_peers =
          IsAsked-kept w.peers _ w.fetching (changed-addrs w a p (close p) b e refl) h.asked_peers;
    }

-- A handle takes the connection that was idle.
try_recv-number :
    (id : ℕ) (ch : Channel)
    → is_number id (idle_of (try_recv ch).0) + is_number id (try_recv ch).1
      ≡ is_number id (idle_of ch)
unfolding try_recv
try_recv-number id closed = refl
try_recv-number id empty = refl
try_recv-number id (full c) = omega arith

try_recv-IsIdle :
    (addr : Bytes) (ch : Channel)
    → IsIdle addr (idle_of ch)
    → IsIdle addr (idle_of (try_recv ch).0) × IsIdle addr (try_recv ch).1
unfolding try_recv
try_recv-IsIdle addr closed h = (tt, tt)
try_recv-IsIdle addr empty h = (tt, tt)
try_recv-IsIdle addr (full c) h = (tt, h)

pub taken-IsWell :
    (w : World) (a : List Peer) (p : Peer) (b : List Peer)
    → w.peers ≡ a ++ (p ∷ b)
    → IsWell w
    → IsWell (record w {
      peers = a ++ ((handle (length a) p).0 ∷ b);
      handles = (handle (length a) p).1 ∷ w.handles;
    })
unfolding holders handle
taken-IsWell w a p b e h =
    let q = (handle (length a) p).0 in
    let (one, fresh) =
      fewer w (record w { peers = a ++ (q ∷ b); handles = (handle (length a) p).1 ∷ w.handles })
        (λ id. omega (
          arith,
          uses_less idle id a p b w.peers e,
          uses-middle idle id a (handle (length a) p).0 b,
          try_recv-number id p.channel,
        ))
        refl h in
    record {
      single = one;
      fresh = fresh;
      idle_peers = changed-idle w a p q b e (λ k. (try_recv-IsIdle p.addr p.channel k).0) h;
      taken_peers = (
        (
          (try_recv-IsIdle p.addr p.channel
              (All-middle IsIdlePeer a p b (subst (All IsIdlePeer) e h.idle_peers)).0).1,
          addr_at-middle a q b,
        ),
        IsTaken-kept w.peers _ w.handles (changed-addrs w a p q b e refl) h.taken_peers,
      );
      asked_peers =
          IsAsked-kept w.peers _ w.fetching (changed-addrs w a p q b e refl) h.asked_peers;
    }

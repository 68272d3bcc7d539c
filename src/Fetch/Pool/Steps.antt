-- ===== src/Fetch/Pool/Steps.antt =====
-- fetch_blocks.rs, state.rs: the steps that concurrent fetches take on the peers' connections.
use btc_rpc_proxy.Prelude.{
  ℕ, suc, ◌+◌, ◌-◌, ◌≤◌, ◌≡◌, Option, none, some, List, [], ◌∷◌, ◌++◌, String, Result, ok, map,
  length, get_elem?, All, if◌then◌else◌, ◌==◌,
}
use btc_rpc_proxy.Prelude.Text.{Bytes}
use btc_rpc_proxy.Fetch.Pool.{
  Connection, Channel, closed, empty, full, Peer, PeerHandle, RecyclableConnection, new, handle,
  connect, recycle,
}

-- All peers, the handles of fetches that have not connected yet, the connections on which a block
-- was asked for, and the number of the next connection.
pub record World : Type 0 where
  pub peers : List Peer
  pub handles : List PeerHandle
  pub fetching : List RecyclableConnection
  pub next : ℕ

-- A block is asked for on the connection.
abbrev pub ask : RecyclableConnection → RecyclableConnection
ask r = record r { conn = record r.conn { unanswered = r.conn.unanswered + 1 } }

-- The block has arrived on it.
abbrev pub answer : RecyclableConnection → RecyclableConnection
answer r = record r { conn = record r.conn { unanswered = r.conn.unanswered - 1 } }

abbrev pub close : Peer → Peer
close p = record p { channel = closed }

pub data Step : World → World → Type 0 where
  -- `Peers::updated` lists a peer.
  listed : (w : World) (addr : Bytes) → Step w (record w { peers = w.peers ++ (new addr ∷ []) })
  -- A list of peers is dropped, with its idle connections.
  dropped :
      (w : World) (a : List Peer) (p : Peer) (b : List Peer)
      → w.peers ≡ a ++ (p ∷ b)
      → Step w (record w { peers = a ++ (close p ∷ b) })
  -- `Peers::handles` makes a handle.
  taken :
      (w : World) (a : List Peer) (p : Peer) (b : List Peer)
      → w.peers ≡ a ++ (p ∷ b)
      → Step w (record w {
        peers = a ++ ((handle (length a) p).0 ∷ b);
        handles = (handle (length a) p).1 ∷ w.handles;
      })
  -- A fetch connects and asks for its block.
  asked :
      (w : World) (a : List PeerHandle) (h : PeerHandle) (b : List PeerHandle)
      (dialled : Result (Unit {0}) String) (r : RecyclableConnection)
      → w.handles ≡ a ++ (h ∷ b)
      → (connect dialled w.next h).1 ≡ ok r
      → Step w (record w { handles = a ++ b; fetching = ask r ∷ w.fetching; next = suc w.next })
  -- A fetch gives up, or cannot connect.
  given_up :
      (w : World) (a : List PeerHandle) (h : PeerHandle) (b : List PeerHandle)
      → w.handles ≡ a ++ (h ∷ b)
      → Step w (record w { handles = a ++ b })
  -- The block arrives and the connection is recycled.
  answered :
      (w : World) (a : List RecyclableConnection) (r : RecyclableConnection)
      (b : List RecyclableConnection)
      → w.fetching ≡ a ++ (r ∷ b)
      → Step w (record w { peers = recycle (answer r) w.peers; fetching = a ++ b })
  -- The fetch fails and the connection is dropped.
  failed :
      (w : World) (a : List RecyclableConnection) (r : RecyclableConnection)
      (b : List RecyclableConnection)
      → w.fetching ≡ a ++ (r ∷ b)
      → Step w (record w { fetching = a ++ b })

abbrev pub start : World
start = record { peers = []; handles = []; fetching = []; next = 0 }

pub data Reach : World → Type 0 where
  here : Reach start
  after : {v w : World} → Reach v → Step v w → Reach w

-- The idle connection of a channel.
abbrev pub idle_of : Channel → Option Connection
idle_of closed = none
idle_of empty = none
idle_of (full c) = some c

abbrev pub idle : Peer → Option Connection
idle p = idle_of p.channel

abbrev pub is_number : ℕ → Option Connection → ℕ
is_number id none = 0
is_number id (some c) = if c.id == id then 1 else 0

-- In how many places a connection is held.
abbrev pub uses : {A : Type 0} → (A → Option Connection) → ℕ → List A → ℕ
uses held id [] = 0
uses held id (x ∷ xs) = is_number id (held x) + uses held id xs

abbrev pub conn_of : PeerHandle → Option Connection
conn_of h = h.conn

abbrev pub in_use : RecyclableConnection → Option Connection
in_use r = some r.conn

unfoldable pub holders : World → ℕ → ℕ
holders w id = uses idle id w.peers + uses conn_of id w.handles + uses in_use id w.fetching

-- The addresses of the channels.
abbrev pub addr_at : List Peer → ℕ → Option Bytes
addr_at peers i = get_elem? (map (λ (p : Peer). p.addr) peers) i

-- A connection to the address that nothing is asked of.
abbrev pub IsIdle : Bytes → Option Connection → Type 0
IsIdle addr none = Unit
IsIdle addr (some c) = (c.addr ≡ addr) × (c.unanswered ≡ 0)

pub record IsWell (w : World) : Type 0 where
  pub single : (id : ℕ) → holders w id ≤ 1
  pub fresh : (id : ℕ) → w.next ≤ id → holders w id ≡ 0
  pub idle_peers : All (λ (p : Peer). IsIdle p.addr (idle p)) w.peers
  pub taken_peers :
      All
        (λ (h : PeerHandle). IsIdle h.addr h.conn × (addr_at w.peers h.send ≡ some h.addr))
        w.handles
  pub asked_peers :
      All
        (λ (r : RecyclableConnection).
          (r.conn.unanswered ≡ 1) × (addr_at w.peers r.send ≡ some r.conn.addr))
        w.fetching

-- ===== src/Fetch/Pool.antt =====
-- fetch_blocks.rs: `Peer`, `PeerHandle` and `RecyclableConnection`, which keep one idle connection
-- to each peer. A peer's channel stands at its number in one list of all peers there ever were.
pub mod Steps
pub mod Counts
pub mod Laws
pub mod Asked
pub mod InFlight
use btc_rpc_proxy.Prelude.{
  ℕ, zero, suc, Option, none, some, List, [], ◌∷◌, String, Result, ok, err, ◌>>=◌,
}
use btc_rpc_proxy.Prelude.Text.{Bytes}

-- A connection, by what is true of it: which one it is, the address it was made to, and how many
-- blocks were asked for on it that did not arrive.
pub record Connection : Type 0 where
  pub id : ℕ
  pub addr : Bytes
  pub unanswered : ℕ

-- `mpmc::bounded(1)`; it is closed when its receiver is dropped.
pub data Channel : Type 0 where
  closed empty : Channel
  full : Connection → Channel

pub record Peer : Type 0 where
  pub addr : Bytes
  pub channel : Channel

-- `send` is the number of the peer's channel.
pub record PeerHandle : Type 0 where
  pub addr : Bytes
  pub conn : Option Connection
  pub send : ℕ

pub record RecyclableConnection : Type 0 where
  pub conn : Connection
  pub send : ℕ

unfoldable pub new : Bytes → Peer
new addr = record { addr = addr; channel = empty }

-- `try_recv`
unfoldable pub try_recv : Channel → Channel × Option Connection
try_recv closed = (closed, none)
try_recv empty = (empty, none)
try_recv (full c) = (empty, some c)

-- `try_send`: a connection that does not fit is dropped.
unfoldable pub try_send : Connection → Channel → Channel
try_send c closed = closed
try_send c empty = full c
try_send c (full d) = full d

unfoldable pub handle : ℕ → Peer → Peer × PeerHandle
handle send p =
    let (channel, conn) = try_recv p.channel in
    (record p { channel = channel }, record { addr = p.addr; conn = conn; send = send })

-- `Peers::handles`, of peers that stand at `send` and behind it.
unfoldable pub handles : ℕ → List Peer → List Peer × List PeerHandle
handles send [] = ([], [])
handles send (p ∷ ps) =
    let (p', h) = handle send p in let (ps', hs) = handles (suc send) ps in (p' ∷ ps', h ∷ hs)

-- `dialled` is what a new connection would come to; it is number `id`.
unfoldable pub connect :
    Result (Unit {0}) String → ℕ → PeerHandle → PeerHandle × Result RecyclableConnection String
connect dialled id h = elim h.conn [
  | some conn ↦ (record h { conn = none }, ok (record { conn = conn; send = h.send }))
  | none ↦ (
    h,
    dialled >>= λ _.
        ok (record { conn = record { id = id; addr = h.addr; unanswered = 0 }; send = h.send }),
  )
]

unfoldable pub put : ℕ → Connection → List Peer → List Peer
put send c [] = []
put zero c (p ∷ ps) = record p { channel = try_send c p.channel } ∷ ps
put (suc send) c (p ∷ ps) = p ∷ put send c ps

unfoldable pub recycle : RecyclableConnection → List Peer → List Peer
unfolding put
recycle r peers = put r.send r.conn peers

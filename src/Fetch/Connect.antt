-- ===== src/Fetch/Connect.antt =====
-- fetch_blocks.rs: `BitcoinPeerConnection::connect`, the way to a peer and the handshake with it.
-- The blocking task goes on when its time is up; `finished` says whether it ended before.
pub mod Routes
pub mod Laws
use btc_rpc_proxy.Prelude.{
  ℕ, ◌^◌, ◌-◌, Bool, true, false, ◌||◌, Option, none, some, List, [], ◌∷◌, ◌++◌, String, Result, ok,
  err, ltb, if◌then◌else◌,
}
use btc_rpc_proxy.Prelude.Int.{ℤ, pos, negsuc}
use btc_rpc_proxy.Prelude.Text.{Bytes, codes}
use btc_rpc_proxy.Prelude.Trim.{contains, rsplit_once, ends_with, decimal}
use btc_rpc_proxy.State.Network.{NetworkParams}

-- `state::TorState`
pub record TorState : Type 0 where
  pub proxy : Bytes
  pub only : Bool

-- How a peer is reached: the variants of `BitcoinPeerConnection`.
pub data Route : Type 0 where
  direct : (addr : Bytes) → Route
  proxied : (proxy addr : Bytes) → Route

pub record VersionMessage : Type 0 where
  pub services : ℕ
  pub timestamp : ℤ
  pub receiver : Bytes × ℕ
  pub sender : Bytes × ℕ
  pub nonce : ℕ
  pub user_agent : Bytes
  pub start_height : ℕ

pub data Message : Type 0 where
  version : (magic : ℕ) → VersionMessage → Message
  verack : (magic : ℕ) → Message

-- What is done to the network.
pub data Event : Type 0 where
  dials : Route → Event
  no_delay : Event
  sends : Message → Event
  flushes : Event
  receives : Event

pub data ConnectError : Type 0 where
  no_network : String → ConnectError
  no_i2p_proxy : (addr : Bytes) → ConnectError
  io : String → ConnectError
  panicked : ConnectError
  timeout : ConnectError

-- A `u64` as an `i64`.
unfoldable pub as_i64 : ℕ → ℤ
as_i64 n = if ltb n (2 ^ 63) then pos n else negsuc (2 ^ 64 - 1 - n)

abbrev localhost : Bytes × ℕ
localhost = (127 ∷ 0 ∷ 0 ∷ 1 ∷ [], 8332)

abbrev pub ver_ack : ℕ → Message
ver_ack magic = verack magic

-- At `now` seconds of the epoch; `pkg_version` is the crate's.
unfoldable pub version_message : Bytes → ℕ → ℕ → Message
unfolding as_i64
version_message pkg_version now magic = version magic (record {
  services = 0;
  timestamp = as_i64 now;
  receiver = localhost;
  sender = localhost;
  nonce = 0;
  user_agent = codes "BTC RPC Proxy v" ++ pkg_version;
  start_height = 0;
})

-- The address with the network's port, if it names none.
unfoldable pub with_port : ℕ → Bytes → Bytes
with_port default_peer_port addr =
    if contains b':' addr then addr else addr ++ (codes ":" ++ decimal default_peer_port)

unfoldable pub host_of : Bytes → Bytes
host_of addr = elim (rsplit_once b':' addr) [ some (host, _) ↦ host | none ↦ addr ]

unfoldable pub is_i2p : Bytes → Bool
is_i2p addr = ends_with (codes ".i2p") (host_of addr)

unfoldable pub is_onion : Bytes → Bool
is_onion addr = ends_with (codes ".onion") (host_of addr)

unfoldable pub by_i2p : Option Bytes → Bytes → Result Route ConnectError
by_i2p none addr = err (no_i2p_proxy addr)
by_i2p (some proxy) addr = ok (proxied proxy addr)

unfoldable pub by_tor : Option TorState → Bytes → Route
by_tor none addr = direct addr
by_tor (some tor) addr = if tor.only || is_onion addr then proxied tor.proxy addr else direct addr

unfoldable pub route : Option TorState → Option Bytes → Bytes → Result Route ConnectError
unfolding by_i2p by_tor
route tor i2p_proxy addr =
    let other = ok (by_tor tor addr) in if is_i2p addr then by_i2p i2p_proxy addr else other

-- How each step of the blocking task comes out, and whether it ends in time.
pub record Outcomes : Type 0 where
  pub dialled : Result (Unit {0}) String
  pub now : Option ℕ
  pub version_written : Result (Unit {0}) String
  pub version_flushed : Result (Unit {0}) String
  pub version_read : Result (Unit {0}) String
  pub verack_read : Result (Unit {0}) String
  pub verack_written : Result (Unit {0}) String
  pub verack_flushed : Result (Unit {0}) String
  pub finished : Bool

abbrev pub Run : Type 0
Run = List Event × Result (Unit {0}) ConnectError

-- A step, and with `?` the steps behind it.
abbrev pub step : Event → Result (Unit {0}) String → Run → Run
step e (ok _) (events, result) = (e ∷ events, result)
step e (err m) rest = (e ∷ [], err (io m))

-- The handshake on a connection.
unfoldable pub handshake : Bytes → ℕ → Outcomes → Run
handshake pkg_version magic o = elim o.now [
  | none ↦ ([], err panicked)
  | some now ↦ step (sends (version_message pkg_version now magic)) o.version_written (
      step flushes o.version_flushed (
        step receives o.version_read (
          step receives o.verack_read (
            step (sends (ver_ack magic)) o.verack_written
              (step flushes o.verack_flushed ([], ok tt))))))
]

-- A failure to set the option is only logged.
abbrev pub nodelay : Run → Run
nodelay (events, result) = (no_delay ∷ events, result)

abbrev pub in_time : Bool → Run → Run
in_time finished (events, result) = (events, if finished then result else err timeout)

-- Everything behind `network_params`, whose answer is `network`.
unfoldable pub connect :
    Bytes
    → Option TorState
    → Option Bytes
    → Result NetworkParams String
    → Bytes
    → Outcomes
    → List Event × Result (Unit {0}) ConnectError
connect pkg_version tor i2p_proxy (err e) addr o = ([], err (no_network e))
connect pkg_version tor i2p_proxy (ok network) addr o =
    in_time o.finished (elim (route tor i2p_proxy (with_port network.default_peer_port addr)) [
      | err e ↦ ([], err e)
      | ok r ↦ step (dials r) o.dialled (nodelay (handshake pkg_version network.magic o))
    ])

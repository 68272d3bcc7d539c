-- ===== src/Start/Bind.antt =====
-- create_state.rs: the log level, and the address that the server listens on.
use btc_rpc_proxy.Prelude.{
  ℕ, zero, suc, ◌≡◌, refl, sym, ok_inj, map_err-ok, Option, none, some, [], ◌∷◌, String, Result, ok,
  err, map_err,
}
use btc_rpc_proxy.Prelude.Text.{Bytes}

-- `slog::Level`
pub data Level : Type 0 where
  critical error warning info debug trace : Level

unfoldable pub log_level : ℕ → Level
log_level zero = critical
log_level (suc zero) = error
log_level (suc (suc zero)) = warning
log_level (suc (suc (suc zero))) = info
log_level (suc (suc (suc (suc zero)))) = debug
log_level _ = trace

-- `systemd_socket::SocketAddr`: an address and a port, or a socket that systemd passes on.
pub data SocketAddr : Type 0 where
  ip : Bytes → ℕ → SocketAddr
  systemd : Bytes → SocketAddr

abbrev pub default_bind_address : Bytes
default_bind_address = 127 ∷ 0 ∷ 0 ∷ 1 ∷ []

abbrev pub default_bind_port : ℕ
default_bind_port = 8331

pub data BindError : Type 0 where
  bad_socket_name : String → BindError
  ambiguous : BindError

-- `unwrap_or`
abbrev pub unwrap_or : {A : Type 0} → A → Option A → A
unwrap_or a none = a
unwrap_or a (some b) = b

-- `from_systemd_name` is that of the systemd_socket crate.
module _ (from_systemd_name : Bytes → Result SocketAddr String) where
  unfoldable pub bind_addr : Option Bytes → Option ℕ → Option Bytes → Result SocketAddr BindError
  bind_addr (some addr) (some port) none = ok (ip addr port)
  bind_addr none (some port) none = ok (ip default_bind_address port)
  bind_addr (some addr) none none = ok (ip addr default_bind_port)
  bind_addr none none none = ok (ip default_bind_address default_bind_port)
  bind_addr none none (some socket_name) = map_err bad_socket_name (from_systemd_name socket_name)
  bind_addr (some addr) _ (some socket_name) = err ambiguous
  bind_addr none (some port) (some socket_name) = err ambiguous

  -- What an address to listen on follows from.
  pub data Listens (addr : Option Bytes) (port : Option ℕ) (name : Option Bytes) (at : SocketAddr)
      : Type 0 where
    by_ip :
        name ≡ none
        → at ≡ ip (unwrap_or default_bind_address addr) (unwrap_or default_bind_port port)
        → Listens addr port name at
    by_name :
        (n : Bytes)
        → name ≡ some n
        → addr ≡ none
        → port ≡ none
        → from_systemd_name n ≡ ok at
        → Listens addr port name at

  -- An address to listen on is that of the options, with the defaults, or that of a socket's name
  -- that stands alone.
  pub bind_addr-Listens :
      (addr : Option Bytes) (port : Option ℕ) (name : Option Bytes) (at : SocketAddr)
      → bind_addr addr port name ≡ ok at
      → Listens addr port name at
  unfolding bind_addr
  bind_addr-Listens (some a) (some p) none at h = by_ip refl (sym (ok_inj h))
  bind_addr-Listens (some a) none none at h = by_ip refl (sym (ok_inj h))
  bind_addr-Listens none (some p) none at h = by_ip refl (sym (ok_inj h))
  bind_addr-Listens none none none at h = by_ip refl (sym (ok_inj h))
  bind_addr-Listens none none (some n) at h =
      by_name n refl refl refl (map_err-ok bad_socket_name (from_systemd_name n) at h)
  bind_addr-Listens (some a) none (some n) at h = absurd (cc)
  bind_addr-Listens (some a) (some p) (some n) at h = absurd (cc)
  bind_addr-Listens none (some p) (some n) at h = absurd (cc)

-- ===== src/State.antt =====
-- state.rs: the state that all requests share, which is filled in from bitcoind.
pub mod Network
pub mod Peers
pub mod Update
pub mod Chain

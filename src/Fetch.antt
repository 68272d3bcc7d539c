-- ===== src/Fetch.antt =====
-- fetch_blocks.rs: where a block comes from, and the checks on a block that a peer sends.
pub mod Block
pub mod Witness
pub mod Peer
pub mod Raw
pub mod Connect
pub mod Pool

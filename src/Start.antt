-- ===== src/Start.antt =====
-- create_state.rs: what the program starts with, from its configuration.
pub mod Passthrough
pub mod Bind
pub mod Create
pub mod Laws
pub mod Sources
pub mod Named
pub mod Members
pub mod Ready

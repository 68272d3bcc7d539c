-- ===== src/Client.antt =====
-- client.rs: requests, errors, responses, and the batch that `send` answers.
pub mod Rpc
pub mod Reply
pub mod Merge
pub mod Single
pub mod Batch
pub mod Auth
pub mod Request
pub mod Response
pub mod Call

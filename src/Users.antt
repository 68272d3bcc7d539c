-- ===== src/Users.antt =====
-- users.rs: the users, their passwords, and the requests that the proxy answers itself.
pub mod Password
pub mod Login
pub mod Intercept
pub mod Config

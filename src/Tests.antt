-- ===== src/Tests.antt =====
-- Tests, and each theorem at work on a concrete input.
mod Fixture
mod Fetching
mod Caching
mod Batching
mod Access
mod Serving
mod Settings
mod Starting
mod Connecting
mod Reading
mod Rendering
mod Digits
mod Replies
mod Blocks
mod Running
mod Calling

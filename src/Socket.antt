-- ===== src/Socket.antt =====
-- include/stream-client/stream/: the sockets over asio's, with a timeout on every operation.
pub mod Defs
pub mod Stream
pub mod Connect
pub mod Timeouts
pub mod Runs
pub mod Attempts
pub mod Retry
pub mod Close
pub mod Dgram
pub mod Aliases
pub mod Async
pub mod Fixtures
mod Examples

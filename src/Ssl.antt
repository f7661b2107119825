-- ===== src/Ssl.antt =====
-- include/stream-client/stream/ssl_stream_socket.hpp and impl/ssl_stream_socket.ipp, by part.
pub mod Defs
pub mod Modes
pub mod Connect
pub mod Loops
pub mod Aliases
pub mod Layers
pub mod Engine
pub mod Deadline
pub mod Fixtures
mod Examples

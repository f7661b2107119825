-- ===== src/Http.antt =====
-- include/stream-client/stream/http_socket.hpp and impl/http_socket.ipp, by part.
pub mod Defs
pub mod Requests
pub mod Responses
pub mod Receives
pub mod Performs
pub mod Stops
pub mod Wire
pub mod Secure
pub mod Aliases
mod Fixtures
mod Examples
mod SecureExamples

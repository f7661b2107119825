-- ===== src/Allocator.antt =====
-- include/stream-client/stream/detail/static_allocator.hpp, by part.
pub mod Defs
pub mod Blocks
pub mod Sharing
mod Examples

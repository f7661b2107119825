-- ===== src/Resolver.antt =====
-- include/stream-client/resolver/resolver.hpp and impl/resolver.ipp, by part.
pub mod Defs
pub mod Resolve
mod Examples

-- ===== src/Logger.antt =====
-- include/stream-client/logger.hpp and impl/logger.ipp, by part.
pub mod Defs
pub mod Levels
mod Examples

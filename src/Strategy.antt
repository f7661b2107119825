-- ===== src/Strategy.antt =====
-- include/stream-client/connector/pool_strategy.hpp and impl/pool_strategy.ipp: the two ways to
-- refill a pool, and what they guarantee.
pub mod Defs
pub mod Adders
pub mod Greedy
pub mod Attempts
pub mod Backoff
pub mod Delay
mod Examples

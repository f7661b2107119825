-- ===== src/Pool.antt =====
-- include/stream-client/connector/connection_pool.hpp and impl/connection_pool.ipp: the pool's
-- operations, its background routine, and what they guarantee.
pub mod Defs
pub mod Watch
pub mod Strategies
pub mod Sweep
pub mod Size
pub mod Take
pub mod Waiting
pub mod Calls
pub mod Fifo
pub mod Ownership
pub mod Fill
pub mod Cycles
pub mod Connected
pub mod Sockets
pub mod Queue
pub mod Refines
pub mod Order
mod Examples
mod Runs
mod Usage

-- ===== src/Timed.antt =====
-- include/stream-client/detail/timed_base.hpp: the timer behind every timed operation, and what one
-- operation of asio does under it.
pub mod Defs
pub mod Operation
pub mod Deadline
pub mod Completion
pub mod Limits
pub mod Fires

-- ===== src/Connector.antt =====
-- include/stream-client/connector/connector.hpp and impl/connector.ipp, by part.
pub mod Defs
pub mod Session
pub mod System
pub mod Requests
pub mod Origins
pub mod Actions
pub mod Waits
pub mod Past
pub mod Interleaved
pub mod Rounds
pub mod Threads
pub mod Progress
pub mod Resolving
pub mod Recovery
pub mod Dialing
pub mod Calls
pub mod Lookups
mod Examples
mod Schedules

-- ===== src/Incremental.antt =====
-- The incremental delivery of @defer and @stream (src/grafast_py/incremental.py).
pub mod Defs
pub mod Pump
pub mod Graph
pub mod Filter
pub mod Publisher
pub mod Keys
pub mod Frames
pub mod Nesting
pub mod Promoting
pub mod Ledger
pub mod Roots
pub mod Handlers
pub mod Protocol
pub mod Failing
pub mod Flying
pub mod Extends
pub mod Stepping
pub mod Pumping
pub mod Awaited
pub mod Wiring
pub mod Promises
pub mod Waiting
pub mod Settling
pub mod Taking
pub mod Progress
pub mod Liveness
pub mod Ending

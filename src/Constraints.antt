-- ===== src/Constraints.antt =====
-- src/grafast_py/constraints.py: the definitions and, below them, the laws.
pub mod Defs
pub mod Gate
pub mod Resolver
pub mod Matching
pub mod Reads
pub mod Mirrored
pub mod Replay
pub mod Recorded
pub mod Scopes
pub mod Arguments

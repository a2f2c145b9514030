-- ===== src/Loading.antt =====
-- The steps of src/grafast_py/core_steps.py: transforms of a column entry by entry, batched loads,
-- Relay nodes, and mapping each list through one flat bucket.
pub mod Defs
pub mod Load
pub mod Coalesce
pub mod Distinct
pub mod Nodes
pub mod ByType
pub mod Alignment
pub mod Each
pub mod Regroup
pub mod GlobalId

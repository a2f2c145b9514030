-- ===== src/Dag.antt =====
-- src/grafast_py/dag.py: the definitions and, below them, the laws.
pub mod Defs
pub mod Visit
pub mod Emit
pub mod Order
pub mod Idents
pub mod Merges
pub mod Remaps
pub mod Plan
pub mod Inverse
pub mod Rewrites
pub mod Reached
pub mod Dependents
pub mod Shake

-- ===== src/Cache.antt =====
-- src/grafast_py/cache.py, `PlanCache`: the definitions and, below them, the laws.
pub mod Defs
pub mod Entries
pub mod Bounds
pub mod Lookup
pub mod Interleaving

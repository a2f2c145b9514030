-- ===== src/Incremental/Graph.antt =====
-- The operations of `IncGraph` (src/grafast_py/incremental.py). `none` is a TypeError or a KeyError.
mod Records
mod Completing
unfoldable pub use Records.*
unfoldable pub use Completing.*

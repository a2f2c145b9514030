-- ===== src/Completion.antt =====
-- Completion of values and the walk of an object's fields (src/grafast_py/completion.py,
-- src/grafast_py/execute.py).
pub mod Defs
pub mod Loops
pub mod Raising
pub mod Reference
pub mod Gather
pub mod Pieces
pub mod Placing
pub mod Joins
pub mod Batches
pub mod Escapes
pub mod Conforms
pub mod Written
pub mod Sound

-- ===== src/Steps.antt =====
-- The executor of src/grafast_py/step_model.py: the definitions and, below them, the laws.
pub mod Defs
pub mod Broadcast
pub mod Lengths

-- ===== src/Pg/Cursor.antt =====
-- src/grafast_py/pg/cursor.py: the definitions and, below them, the laws.
pub mod Defs
pub mod Database
pub mod Keyset
pub mod Pages
pub mod Codec

-- ===== src/Pg/Connection.antt =====
-- The pages of a Relay connection, src/grafast_py/pg/connection.py.
pub mod Defs
pub mod Lists
pub mod Windows
pub mod Walk

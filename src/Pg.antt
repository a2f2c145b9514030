-- ===== src/Pg.antt =====
-- The Postgres data source, src/grafast_py/pg.
pub mod Ordering
pub mod Cursor
pub mod Connection

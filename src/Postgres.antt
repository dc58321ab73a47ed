-- ===== src/Postgres.antt =====
-- The PostgreSQL database and internal/postgres: the unit of work that layers share.
mod Tables
mod Tx
unfoldable pub use Tables.*
unfoldable pub use Tx.*

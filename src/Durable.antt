-- ===== src/Durable.antt =====
-- The idempotency keys of PostgreSQL: internal/idempotency/postgres.go and purge.go, with the
-- leader lock of internal/postgres/leader.go.
mod Store
pub mod Outcome
pub mod Commits
pub mod Replays
pub mod Finished
pub mod Writes
pub mod Keyed
mod Examples
unfoldable pub use Store.*

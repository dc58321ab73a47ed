-- ===== src/Queue/Pool.antt =====
-- internal/queue/pool.go and events.go: a worker pool over the table. `Decide` has what becomes of
-- a job, `Inflight` the pool's own state.
mod Decide
mod Inflight
pub mod Outcomes
pub mod Fate
pub mod Dispatch
pub mod Beat
pub mod Drain
pub mod Loop
unfoldable pub use Decide.*
unfoldable pub use Inflight.*

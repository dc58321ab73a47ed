-- ===== src/Queue/Maintenance.antt =====
-- internal/queue/service.go and internal/queue/maintenance.go: the reaper, the scheduler, the
-- purger and the leader's sweep.
mod Sweeps
pub mod Ids
pub mod Retention
unfoldable pub use Sweeps.*

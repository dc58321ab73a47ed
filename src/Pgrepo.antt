-- ===== src/Pgrepo.antt =====
-- internal/task/pgrepo: the PostgreSQL task repository, whose writes enqueue their events.
mod Events
mod Statements
mod Repo
mod Enqueued
pub mod Identity
pub mod Atomic
pub mod Joined
pub mod Agrees
pub mod Operations
pub mod Pages
pub mod Samples
mod Examples
unfoldable pub use Events.*
unfoldable pub use Statements.*
unfoldable pub use Repo.*

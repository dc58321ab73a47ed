-- ===== src/Task.antt =====
-- internal/task and internal/task/memrepo: the domain, its service and the in-memory repository.
mod Model
mod Paging
mod Memory
mod Service
pub mod Token
pub mod Listing
pub mod Validation
pub mod Spec
pub mod Refinement
pub mod Order
pub mod Pages
pub mod Walk
pub mod Rules
mod Examples
unfoldable pub use Model.*
unfoldable pub use Paging.*
unfoldable pub use Memory.*
unfoldable pub use Service.*

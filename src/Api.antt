-- ===== src/Api.antt =====
-- internal/api: the RPC handlers over the task service, and the codes of their errors.
mod Errors
mod Server
pub mod Told
pub mod Updates
mod Examples
unfoldable pub use Errors.*
unfoldable pub use Server.*

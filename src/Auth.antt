-- ===== src/Auth.antt =====
-- internal/auth: who a caller is, by its token and its address.
mod Address
mod Resolving
pub mod Middleware
pub mod Spoofing
pub mod Resolved
mod Examples
unfoldable pub use Address.*
unfoldable pub use Resolving.*

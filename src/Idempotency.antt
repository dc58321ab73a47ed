-- ===== src/Idempotency.antt =====
-- internal/idempotency: a request that is sent more than once is executed once.
mod Store
mod Fingerprints
mod Middleware
pub mod Framing
mod Records
pub mod Once
pub mod Stale
mod Examples
unfoldable pub use Store.*
unfoldable pub use Fingerprints.*
unfoldable pub use Middleware.*

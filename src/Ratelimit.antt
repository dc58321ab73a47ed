-- ===== src/Ratelimit.antt =====
-- internal/ratelimit: a bucket of tokens for each caller, and a cap on the requests in flight.
mod Limiter
mod Middleware
pub mod Traffic
mod Tables
mod Alike
pub mod Swept
pub mod Inflight
mod Examples
unfoldable pub use Limiter.*
unfoldable pub use Middleware.*

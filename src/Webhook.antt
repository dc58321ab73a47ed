-- ===== src/Webhook.antt =====
-- The webhook handler of jobs: internal/queue/handler/webhook.go, and what the pool makes of its
-- errors.
mod Delivery
pub mod Outcomes
pub mod Refusals
pub mod Headers
mod Examples
unfoldable pub use Delivery.*

-- ===== src/Apperr.antt =====
-- internal/apperr: the classification of errors, and the Go error values that the repository
-- classifies.
mod Kinds
mod Error
pub mod Result
pub mod Classify
pub mod Chain
mod Examples
unfoldable pub use Kinds.*
unfoldable pub use Error.*

-- ===== src/Queue/Store.antt =====
-- internal/queue/store.go: each statement as a function of the table, with `now()` an argument.
-- An UPDATE maps the rows; the number of rows affected is the number that its WHERE selects.
mod Rows
mod Claiming
mod Completions
pub mod Guard
pub mod Held
pub mod Claims
pub mod Batch
unfoldable pub use Rows.*
unfoldable pub use Claiming.*
unfoldable pub use Completions.*

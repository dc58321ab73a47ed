-- ===== src/Logging.antt =====
-- internal/logging: the handler that collapses repeated warnings and errors.
pub mod Throttle
pub mod Kept
pub mod Counted
pub mod Spaced
mod Examples

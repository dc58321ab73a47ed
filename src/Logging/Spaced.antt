-- ===== src/Logging/Spaced.antt =====
-- How close two lines of one key come in internal/logging/throttle.go.

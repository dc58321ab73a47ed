-- ===== src/Ratelimit/Swept.antt =====
-- Sweep of internal/ratelimit/limiter.go loses no quota.

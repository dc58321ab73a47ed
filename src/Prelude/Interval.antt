-- ===== src/Prelude/Interval.antt =====
-- A time.Duration as a statement's argument: pgx sends it as an interval of PostgreSQL, whose
-- resolution is the microsecond.
use Prim.Native.Nat.{ℕ, ◌/◌}

abbrev pub interval : ℕ → ℕ
interval duration = duration / 1000

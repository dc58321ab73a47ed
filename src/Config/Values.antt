-- ===== src/Config/Values.antt =====
-- The values of settings: int64 durations (duration.go) and numbers, and float64 fractions.
use gogolook_task_api.Prelude.{
  ℕ, zero, suc, ◌-◌, ◌*◌, ◌%◌, ◌^◌, Bool, true, false, ltb, if◌then◌else◌,
}
use gogolook_task_api.Prelude.Int.{ℤ, pos, negsuc}

-- `Duration`: nanoseconds.
abbrev pub Duration : Type 0
Duration = ℤ

abbrev pub milliseconds : ℕ → Duration
milliseconds n = pos (n * 1000000)

abbrev pub seconds : ℕ → Duration
seconds n = pos (n * 1000000000)

abbrev pub minutes : ℕ → Duration
minutes n = seconds (n * 60)

abbrev pub hours : ℕ → Duration
hours n = minutes (n * 60)

-- `<` on int64.
unfoldable pub int_ltb : ℤ → ℤ → Bool
int_ltb (pos a) (pos b) = ltb a b
int_ltb (pos a) (negsuc b) = false
int_ltb (negsuc a) (pos b) = true
int_ltb (negsuc a) (negsuc b) = ltb b a

-- The int64 of 64 bits.
abbrev pub signed64 : ℕ → ℤ
signed64 u = if ltb u (2 ^ 63) then pos u else negsuc (2 ^ 64 - 1 - u)

-- `d * k` on int64, for a constant k.
unfoldable pub times64 : ℤ → ℕ → ℤ
times64 (pos n) k = signed64 ((n * k) % 2 ^ 64)
times64 (negsuc n) k = signed64 ((2 ^ 64 - (suc n * k) % 2 ^ 64) % 2 ^ 64)

-- A float64: `ratio n d` is n / (d + 1), or what is nearest to it.
pub data Float64 : Type 0 where
  not_a_number : Float64
  infinite : (negative : Bool) → Float64
  ratio : ℤ → ℕ → Float64

-- `f <= 0`, `f < 0` and `f > 1`, which a NaN answers with false.
abbrev pub at_most_zero : Float64 → Bool
at_most_zero not_a_number = false
at_most_zero (infinite negative) = negative
at_most_zero (ratio (pos zero) d) = true
at_most_zero (ratio (pos (suc n)) d) = false
at_most_zero (ratio (negsuc n) d) = true

abbrev pub below_zero : Float64 → Bool
below_zero not_a_number = false
below_zero (infinite negative) = negative
below_zero (ratio (pos n) d) = false
below_zero (ratio (negsuc n) d) = true

abbrev pub above_one : Float64 → Bool
above_one not_a_number = false
above_one (infinite true) = false
above_one (infinite false) = true
above_one (ratio (pos n) d) = ltb (suc d) n
above_one (ratio (negsuc n) d) = false

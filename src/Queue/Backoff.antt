-- ===== src/Queue/Backoff.antt =====
-- internal/queue/backoff.go. Durations are nanoseconds. `Backoff.raw` computes in float64; below
-- 2^53, and so wherever the cap is below 2^53 (some hundred days), its products are exact or past
-- the cap, and these numbers are the same. `draw x` is `time.Duration(random() * float64(x))`.
use native.Mathlib.Nat.{mul-le-mul, mul-le-mul_left}
use gogolook_task_api.Prelude.{
  ℕ, ◌+◌, ◌*◌, ◌/◌, ◌≤◌, String, str_eq, str_eq_iff, ltb, if◌then◌else◌, max, arith,
}

pub record Backoff : Type 0 where
  pub base : ℕ
  pub max_delay : ℕ
  pub jitter : String
  pub draw : ℕ → ℕ

unfoldable pub window : Backoff → ℕ → ℕ
window b attempt = let a = max 1 attempt in b.base * (a * a * a * a)

-- `raw`: the window of an attempt, capped.
unfoldable pub raw : Backoff → ℕ → ℕ
raw b attempt = if ltb b.max_delay (window b attempt) then b.max_delay else window b attempt

-- `For`: the wait after an attempt has failed.
unfoldable pub for_attempt : Backoff → ℕ → ℕ
for_attempt b attempt =
    if str_eq b.jitter "none"
    then raw b attempt
    else if str_eq b.jitter "equal"
    then raw b attempt / 2 + b.draw (raw b attempt / 2)
    else b.draw (raw b attempt)

fourth_mono : (a b : ℕ) → a ≤ b → a * a * a * a ≤ b * b * b * b
fourth_mono a b h = mul-le-mul (mul-le-mul (mul-le-mul h h) h) h

window_mono : (b : Backoff) (m n : ℕ) → m ≤ n → window b m ≤ window b n
unfolding window
window_mono b m n h = mul-le-mul_left b.base (fourth_mono (max 1 m) (max 1 n) (omega arith))

-- A wait never passes the cap nor the window of its attempt; with equal jitter it is at least half
-- the window. The windows grow with the attempts up to the cap.
pub for_attempt_bounds :
    (b : Backoff) (m n : ℕ)
    → ((x : ℕ) → b.draw x ≤ x)
    → m ≤ n
    → (for_attempt b n ≤ raw b n)
      × (raw b n ≤ b.max_delay)
      × (raw b m ≤ raw b n)
      × ((if str_eq b.jitter "equal" then raw b n / 2 else 0) ≤ for_attempt b n)
unfolding for_attempt raw
for_attempt_bounds b m n law h = (
  ground (arith, law (raw b n), law (raw b n / 2)),
  ground arith,
  ground (arith, window_mono b m n h),
  ground (arith, str_eq_iff b.jitter "equal", str_eq_iff b.jitter "none"),
)

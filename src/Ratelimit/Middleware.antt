-- ===== src/Ratelimit/Middleware.antt =====
-- internal/ratelimit/middleware.go: the headers of a decision, and the answer to a refused request.
use gogolook_task_api.Prelude.{ℕ, ◌+◌, ◌-◌, ◌/◌, List, ◌++◌, if◌then◌else◌, codes}
use gogolook_task_api.Prelude.Decimal.{decimal}
use gogolook_task_api.Auth.{Identity}
use gogolook_task_api.Ratelimit.Limiter.{
  Limits, Rates, Buckets, Decision, second, at_least_one, allow,
}

-- `math.Round` and `math.Ceil` of a duration in seconds.
abbrev pub round_seconds : ℕ → ℕ
round_seconds d = (d + second / 2) / second

abbrev pub ceil_seconds : ℕ → ℕ
ceil_seconds d = (d + (second - 1)) / second

pub record Headers : Type 0 where
  pub policy : List ℕ
  pub combined : List ℕ
  pub limit : List ℕ
  pub remaining : List ℕ
  pub reset : List ℕ

-- `writeHeaders`.
unfoldable pub write_headers : Decision → Headers
unfolding decimal codes
write_headers d = record {
  policy = decimal d.limit ++ codes ";w=" ++ decimal (round_seconds d.window);
  combined =
      codes "limit="
      ++ decimal d.limit
      ++ codes ", remaining="
      ++ decimal d.remaining
      ++ codes ", reset="
      ++ decimal (ceil_seconds d.reset);
  limit = decimal d.limit;
  remaining = decimal d.remaining;
  reset = decimal (ceil_seconds d.reset);
}

-- `retryAfter`.
unfoldable pub retry_seconds : ℕ → ℕ
retry_seconds d = at_least_one (ceil_seconds d)

unfoldable pub retry_after : ℕ → List ℕ
unfolding decimal retry_seconds
retry_after d = decimal (retry_seconds d)

-- The request goes on, or is answered 429 with Retry-After and the tier in its detail.
pub data Admission : Type 0 where
  admitted : Headers → Admission
  refused : Headers → List ℕ → List ℕ → Admission

unfoldable pub admit : Decision → Admission
unfolding write_headers retry_after
admit d =
    if d.allowed
    then admitted (write_headers d)
    else refused (write_headers d) (retry_after d.reset) d.tier

-- `Middleware`.
unfoldable pub limit_request :
    {B : Type 0} → Rates B → Limits → (seen now : ℕ) → Identity → Buckets B → Admission × Buckets B
unfolding admit allow
limit_request rates cfg seen now id m = let (d, m') = allow rates cfg seen now id m in (admit d, m')

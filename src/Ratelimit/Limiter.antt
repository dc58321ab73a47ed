-- ===== src/Ratelimit/Limiter.antt =====
-- internal/ratelimit/limiter.go. The buckets of golang.org/x/time/rate are a parameter; instants
-- and durations are nanoseconds, and the two readings of the clock in Allow are arguments. A rate
-- is a fraction, whose float64 arithmetic is taken as exact.
use gogolook_task_api.Prelude.{
  ℕ, suc, ◌+◌, ◌-◌, ◌*◌, ◌/◌, Bool, true, false, Option, none, some, List, [], ◌∷◌, ltb, ◌==◌,
  if◌then◌else◌, codes,
}
use gogolook_task_api.Prelude.Int.{ℤ, pos}
use gogolook_task_api.Prelude.Bytes.{bytes_eq, find_key, put_key}
use gogolook_task_api.Auth.{Identity}

-- `config.Quota`: `per_seconds` seconds bring `rate` tokens.
pub record Quota : Type 0 where
  pub rate : ℕ
  pub per_seconds : ℕ
  pub burst : ℕ

-- The part of `config.RateLimit` that the limiter reads.
pub record Limits : Type 0 where
  pub key_ttl : ℕ
  pub anonymous : Quota
  pub standard : Quota
  pub internal : Quota

-- `rate.Limiter`: NewLimiter, AllowN of one token, TokensAt as a whole number, and ReserveN with
-- DelayFrom and CancelAt, at an instant.
pub record Rates (B : Type 0) : Type 0 where
  pub new_limiter : Quota → B
  pub allow_one : ℕ → B → Bool × B
  pub tokens_at : ℕ → B → ℤ
  pub probe : ℕ → B → ℕ × B

-- `bucket`, and the map of the limiter.
pub record Bucket (B : Type 0) : Type 0 where
  pub limiter : B
  pub tier : List ℕ
  pub seen : ℕ

abbrev pub Buckets : Type 0 → Type 0
Buckets B = List (List ℕ × Bucket B)

pub record Decision : Type 0 where
  pub allowed : Bool
  pub limit : ℕ
  pub window : ℕ
  pub remaining : ℕ
  pub reset : ℕ
  pub tier : List ℕ

abbrev pub second : ℕ
second = 1000000000

abbrev pub at_least_one : ℕ → ℕ
at_least_one n = if n == 0 then 1 else n

-- `refill`.
unfoldable pub refill : Quota → ℕ
refill q =
    if q.rate == 0
    then second
    else at_least_one ((q.burst * q.per_seconds + (q.rate - 1)) / q.rate) * second

-- `quota`: an unknown tier gets the anonymous one.
unfoldable pub quota_of : Limits → List ℕ → Quota
unfolding bytes_eq codes
quota_of cfg tier =
    if bytes_eq tier (codes "internal")
    then cfg.internal
    else if bytes_eq tier (codes "standard")
    then cfg.standard
    else cfg.anonymous

abbrev pub whole_tokens : ℤ → ℕ
whole_tokens (pos n) = n
whole_tokens (ℤ.negsuc n) = 0

module _ {B : Type 0} (rates : Rates B) (cfg : Limits) where
  -- The bucket that Allow takes: one of another tier is replaced.
  unfoldable pub limiter_of : List ℕ → Option (Bucket B) → B
  unfolding quota_of
  limiter_of tier none = rates.new_limiter (quota_of cfg tier)
  limiter_of tier (some b) =
      if bytes_eq b.tier tier then b.limiter else rates.new_limiter (quota_of cfg tier)

  unfoldable pub decide : List ℕ → ℕ → Bool × B → Decision × B
  unfolding quota_of refill
  decide tier now (true, b) = (
    record {
      allowed = true;
      limit = (quota_of cfg tier).burst;
      window = refill (quota_of cfg tier);
      remaining = whole_tokens (rates.tokens_at now b);
      reset = 0;
      tier = tier;
    },
    b,
  )
  decide tier now (false, b) =
      let (delay, b') = rates.probe now b in
      (
        record {
          allowed = false;
          limit = (quota_of cfg tier).burst;
          window = refill (quota_of cfg tier);
          remaining = whole_tokens (rates.tokens_at now b);
          reset = delay;
          tier = tier;
        },
        b',
      )

  unfoldable pub allow_held :
      (seen now : ℕ) → Identity → Option (Bucket B) → Buckets B → Decision × Buckets B
  unfolding limiter_of decide put_key
  allow_held seen now id held m =
      let (d, b) = decide id.tier now (rates.allow_one now (limiter_of id.tier held)) in
      (d, put_key id.key (record { limiter = b; tier = id.tier; seen = seen }) m)

  -- `Allow`.
  unfoldable pub allow : (seen now : ℕ) → Identity → Buckets B → Decision × Buckets B
  unfolding allow_held find_key
  allow seen now id m = allow_held seen now id (find_key id.key m) m

-- Whether Sweep drops a bucket: it was seen before now less the TTL.
abbrev pub is_idle : {B : Type 0} → (ttl now : ℕ) → Bucket B → Bool
is_idle ttl now b = ltb (b.seen + ttl) now

-- `Sweep`: the buckets that stay, and how many went.
unfoldable pub sweep : {B : Type 0} → (ttl now : ℕ) → Buckets B → Buckets B × ℕ
sweep ttl now [] = ([], 0)
sweep ttl now ((k, b) ∷ m) =
    let (rest, n) = sweep ttl now m in
    if is_idle ttl now b then (rest, suc n) else ((k, b) ∷ rest, n)

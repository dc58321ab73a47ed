-- ===== src/Ratelimit/Examples.antt =====
-- The theorems on the limiter at simple buckets, and tests of the definitions.
use gogolook_task_api.Prelude.{
  ltb, suc, ℕ, ◌+◌, ◌-◌, ◌≤◌, Bool, true, false, List, [], ◌∷◌, ◌≡◌, refl, leb, ◌==◌, if◌then◌else◌,
  codes, length, map,
}
use gogolook_task_api.Prelude.Int.{pos}
use gogolook_task_api.Prelude.Bytes.{bytes_eq, find_key, put_key}
use gogolook_task_api.Prelude.Decimal.{decimal}
use gogolook_task_api.Auth.{Identity}
use gogolook_task_api.Ratelimit.Limiter.{
  Quota, Limits, Rates, refill, quota_of, limiter_of, decide, allow_held, allow, sweep,
}
use gogolook_task_api.Ratelimit.Middleware.{retry_after, retry_seconds}
use gogolook_task_api.Ratelimit.Traffic.{Happening, asks, sweeps, decisions, unswept}
use gogolook_task_api.Ratelimit.Inflight.{
  arrives, ends, idle, arrivals, known, acquire, arrive, pass, is_served, end, passes,
  passes-arrive,
}

-- A bucket that fills up at once when the time of a refill has passed since its last use.
record Tank : Type 0 where
  quota : Quota
  tokens : ℕ
  used : ℕ

abbrev level : ℕ → Tank → ℕ
level now b = if leb (b.used + refill b.quota) now then b.quota.burst else b.tokens

abbrev draw : ℕ → Tank → Bool × Tank
draw now b =
    if level now b == 0
    then (false, b)
    else (true, record b { tokens = level now b - 1; used = now })

abbrev tanks : Rates Tank
tanks = record {
  new_limiter = λ q. record { quota = q; tokens = q.burst; used = 0 };
  allow_one = draw;
  tokens_at = λ now b. pos (level now b);
  probe = λ now b. (0, b);
}

-- Two tokens, one a second, and a TTL of three seconds.
abbrev pair : Quota
pair = record { rate = 1; per_seconds = 1; burst = 2 }

abbrev limits : Limits
limits = record { key_ttl = 3000000000; anonymous = pair; standard = pair; internal = pair }

abbrev caller : Identity
caller = record { client_id = []; tier = []; key = 1 ∷ [] }

abbrev traffic : List Happening
traffic =
    asks 10 11 caller
    ∷ asks 12 12 caller
    ∷ asks 13 13 caller
    ∷ sweeps 4000000000
    ∷ asks 4000000001 4000000002 caller
    ∷ []

-- Tokens that take an hour: the settings accept them, and the sweep gives them back early.
abbrev slow : Limits
slow = record limits { anonymous = record { rate = 1; per_seconds = 3600; burst = 1 } }

abbrev two_asks : List Happening
two_asks = asks 10 11 caller ∷ sweeps 4000000000 ∷ asks 4000000001 4000000002 caller ∷ []

swept_early : map (λ d. d.allowed) (decisions tanks slow two_asks []) ≡ true ∷ true ∷ []
unfolding allow allow_held limiter_of decide sweep find_key put_key quota_of refill bytes_eq codes
swept_early = refl

kept_long : map (λ d. d.allowed) (unswept tanks slow two_asks []) ≡ true ∷ false ∷ []
unfolding allow allow_held limiter_of decide find_key put_key quota_of refill bytes_eq codes
kept_long = refl

-- A wait of less than a second is told as one.
short_wait : retry_after 5 ≡ codes "1"
unfolding retry_after retry_seconds decimal codes
short_wait = refl

passes-arrive_example :
    let s = passes 1 (arrives 4 ∷ arrives 5 ∷ ends 4 ∷ arrives 6 ∷ []) idle in
    let next = arrive 1 7 s in
    let after = end 6 s in
    (s.slots ≡ length s.served)
    × (length s.served ≤ 1)
    × (known s ≡ arrivals (arrives 4 ∷ arrives 5 ∷ ends 4 ∷ arrives 6 ∷ []))
    × (next.served ≡ (if ltb (length s.served) 1 then 7 ∷ s.served else s.served))
    × (next.shed ≡ (if ltb (length s.served) 1 then s.shed else 7 ∷ s.shed))
    × (length s.served
        ≡ (if is_served 6 s.served then suc (length after.served) else length after.served))
    × (after.slots ≡ length after.served)
    × (after.shed ≡ s.shed)
passes-arrive_example = passes-arrive 1 (arrives 4 ∷ arrives 5 ∷ ends 4 ∷ arrives 6 ∷ []) 7 6

shed_five :
    let s = passes 1 (arrives 4 ∷ arrives 5 ∷ ends 5 ∷ ends 4 ∷ arrives 6 ∷ []) idle in
    (s.served ≡ 6 ∷ []) × (s.shed ≡ 5 ∷ [])
unfolding passes pass arrive acquire end
shed_five = (refl, refl)

-- ===== src/Ratelimit/Traffic.antt =====
-- Requests and sweeps of internal/ratelimit/limiter.go in the order of their times, and what
-- golang.org/x/time/rate documents of its buckets.
use gogolook_task_api.Prelude.{ℕ, ◌+◌, ◌≤◌, List, [], ◌∷◌, ◌≡◌}
use gogolook_task_api.Auth.{Identity}
use gogolook_task_api.Ratelimit.Limiter.{
  Quota, Limits, Rates, Buckets, Decision, refill, allow, sweep,
}

-- A bucket has the quota it was made with and the instant of its last use; one that was left alone
-- for the time of a refill answers as a new one of its quota does.
pub record Documented {B : Type 0} (rates : Rates B) : Type 0 where
  pub quota : B → Quota
  pub used : B → ℕ
  pub new_quota : (q : Quota) → quota (rates.new_limiter q) ≡ q
  pub new_used : (q : Quota) → used (rates.new_limiter q) ≡ 0
  pub allow_quota : (now : ℕ) (b : B) → quota (rates.allow_one now b).1 ≡ quota b
  pub allow_used : (now : ℕ) (b : B) → used b ≤ now → used (rates.allow_one now b).1 ≤ now
  pub probe_quota : (now : ℕ) (b : B) → quota (rates.probe now b).1 ≡ quota b
  pub probe_used : (now : ℕ) (b : B) → used b ≤ now → used (rates.probe now b).1 ≤ now
  pub refilled :
      (now : ℕ) (b : B)
      → 1 ≤ (quota b).burst
      → used b + refill (quota b) ≤ now
      → rates.allow_one now b ≡ rates.allow_one now (rates.new_limiter (quota b))

-- What a limiter is asked: a request, with the two readings of the clock, or a sweep.
pub data Happening : Type 0 where
  asks : (seen now : ℕ) → Identity → Happening
  sweeps : ℕ → Happening

module _ {B : Type 0} (rates : Rates B) (cfg : Limits) where
  -- The decisions, with the sweeps and without them.
  abbrev pub decisions : List Happening → Buckets B → List Decision
  decisions [] m = []
  decisions (asks seen now id ∷ hs) m =
      let (d, m') = allow rates cfg seen now id m in d ∷ decisions hs m'
  decisions (sweeps now ∷ hs) m = decisions hs (sweep cfg.key_ttl now m).0

  abbrev pub unswept : List Happening → Buckets B → List Decision
  unswept [] m = []
  unswept (asks seen now id ∷ hs) m =
      let (d, m') = allow rates cfg seen now id m in d ∷ unswept hs m'
  unswept (sweeps now ∷ hs) m = unswept hs m

-- The times go up from t, and a request's second reading is at most so much behind its first.
abbrev pub InOrder : (drift : ℕ) → ℕ → List Happening → Type 0
InOrder drift t [] = Unit {0}
InOrder drift t (asks seen now id ∷ hs) =
    (t ≤ seen) × (seen ≤ now) × (now ≤ seen + drift) × InOrder drift now hs
InOrder drift t (sweeps now ∷ hs) = (t ≤ now) × InOrder drift now hs

-- A tier's bucket refills within the TTL, and holds a token at least.
pub record IsWithin (drift ttl : ℕ) (q : Quota) : Type 0 where
  pub refills : refill q + drift ≤ ttl
  pub burst : 1 ≤ q.burst

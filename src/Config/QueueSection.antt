-- ===== src/Config/QueueSection.antt =====
-- internal/config/queue.go.
use gogolook_task_api.Prelude.{ℕ, Bool, ◌&&◌, List, [], ◌∷◌, codes}
use gogolook_task_api.Prelude.Int.{ℤ, pos, is_negative}
use gogolook_task_api.Config.Values.{
  Duration, milliseconds, seconds, minutes, hours, int_ltb, times64,
}
use gogolook_task_api.Config.Checks.{Problem, add_if, at, positive, at_least, one_of, in_order}

pub record Backoff : Type 0 where
  pub base : Duration
  pub max : Duration
  pub jitter : List ℕ

pub record Retention : Type 0 where
  pub succeeded : Duration
  pub discarded : Duration
  pub purge_interval : Duration

pub record Queue : Type 0 where
  pub workers : ℤ
  pub claim_batch : ℤ
  pub lease : Duration
  pub heartbeat_interval : Duration
  pub poll_interval : Duration
  pub reaper_interval : Duration
  pub fetch_cooldown : Duration
  pub job_timeout : Duration
  pub max_attempts : ℤ
  pub backoff : Backoff
  pub retention : Retention

unfoldable pub jitters : List (List ℕ)
unfolding codes
jitters = codes "full" ∷ codes "equal" ∷ codes "none" ∷ []

-- `SetDefaults`.
unfoldable pub queue_defaults : Queue
unfolding codes
queue_defaults = record {
  workers = pos 8;
  claim_batch = pos 10;
  lease = seconds 30;
  heartbeat_interval = seconds 10;
  poll_interval = seconds 2;
  reaper_interval = seconds 15;
  fetch_cooldown = milliseconds 100;
  job_timeout = minutes 1;
  max_attempts = pos 5;
  backoff = record { base = seconds 1; max = minutes 5; jitter = codes "full" };
  retention = record { succeeded = hours 24; discarded = hours 168; purge_interval = hours 1 };
}

unfoldable pub validate_backoff : List ℕ → Backoff → List Problem
unfolding at positive add_if one_of jitters in_order
validate_backoff prefix b = in_order (
    positive (at prefix "base") b.base
    ∷ positive (at prefix "max") b.max
    ∷ add_if (int_ltb (pos 0) b.max && int_ltb b.max b.base) (at prefix "base") "must not exceed %s"
    ∷ one_of (at prefix "jitter") b.jitter jitters
    ∷ [])

unfoldable pub validate_retention : List ℕ → Retention → List Problem
unfolding at positive in_order
validate_retention prefix r = in_order (
    positive (at prefix "succeeded") r.succeeded
    ∷ positive (at prefix "discarded") r.discarded
    ∷ positive (at prefix "purge_interval") r.purge_interval
    ∷ [])

-- Three intervals, as an int64, are more than the lease.
unfoldable pub beats_too_slow : (interval lease : Duration) → Bool
unfolding int_ltb times64
beats_too_slow interval lease =
    int_ltb (pos 0) interval && (int_ltb (pos 0) lease && int_ltb lease (times64 interval 3))

unfoldable pub queue_checks : List ℕ → Queue → List (List Problem)
unfolding at at_least positive add_if beats_too_slow validate_backoff validate_retention
queue_checks prefix q =
    at_least (at prefix "workers") q.workers 1
    ∷ at_least (at prefix "claim_batch") q.claim_batch 1
    ∷ at_least (at prefix "max_attempts") q.max_attempts 1
    ∷ positive (at prefix "lease") q.lease
    ∷ positive (at prefix "heartbeat_interval") q.heartbeat_interval
    ∷ positive (at prefix "poll_interval") q.poll_interval
    ∷ positive (at prefix "reaper_interval") q.reaper_interval
    ∷ positive (at prefix "job_timeout") q.job_timeout
    ∷ add_if (is_negative q.fetch_cooldown) (at prefix "fetch_cooldown") "must not be negative"
    ∷ add_if (beats_too_slow q.heartbeat_interval q.lease) (at prefix "heartbeat_interval")
        "must be at most one third of %s (%s), so two missed heartbeats are tolerated before the reaper acts"
    ∷ validate_backoff (at prefix "backoff") q.backoff
    ∷ validate_retention (at prefix "retention") q.retention
    ∷ []

-- `Validate`.
unfoldable pub validate_queue : Queue → List Problem
unfolding queue_checks in_order codes
validate_queue q = in_order (queue_checks (codes "queue") q)

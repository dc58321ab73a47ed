-- ===== src/Queue/Machine/Invariant.antt =====
-- What every statement of internal/queue keeps of a row.
use gogolook_task_api.Prelude.{
  ℕ, ◌+◌, ◌≤◌, String, Bool, true, false, ◌&&◌, ◌||◌, Option, none, some, if◌then◌else◌, ◌≡◌, arith,
}
use gogolook_task_api.Queue.Job.{Row, State, available, scheduled, running, retryable, state_eq}
use gogolook_task_api.Queue.Store.{
  Completion, succeeds, retries, cancels, discards, snoozes, completed_row, heartbeat_row,
  release_row, claim_row, succeed_row, retry_row, terminal_row, snooze_row,
}
use gogolook_task_api.Queue.Store.Guard.{state_eq_iff}
use gogolook_task_api.Queue.Maintenance.{lapsed, reap_row, due, schedule_row}

abbrev pub is_waiting : State → Bool
is_waiting available = true
is_waiting scheduled = true
is_waiting retryable = true
is_waiting _ = false

abbrev pub is_some {ℓ} : {A : Type ℓ} → Option A → Bool
is_some none = false
is_some (some a) = true

-- A job has an owner and a lease exactly while it runs; a running job has an attempt under way; the
-- attempts stay within the budget, and a waiting job has one left; no live job is finalized.
pub record IsSound (r : Row) : Type 0 where
  pub owner : is_some r.locked_by ≡ state_eq r.state running
  pub lease : is_some r.lease_expires_at ≡ state_eq r.state running
  pub started : (if state_eq r.state running then 1 else 0) ≤ r.attempt
  pub budget : r.attempt + (if is_waiting r.state then 1 else 0) ≤ r.max_attempts
  pub unfinished :
      (is_some r.finalized_at && (is_waiting r.state || state_eq r.state running)) ≡ false

pub claim_row-IsSound :
    (now : ℕ) (w : String) (lease : ℕ) (r : Row)
    → r.state ≡ available
    → IsSound r
    → IsSound (claim_row now w lease r)
unfolding claim_row
claim_row-IsSound now w lease r a s = ground arith

pub heartbeat_row-IsSound :
    (now lease : ℕ) (r : Row) → r.state ≡ running → IsSound r → IsSound (heartbeat_row now lease r)
unfolding heartbeat_row
heartbeat_row-IsSound now lease r a s = ground arith

pub release_row-IsSound : (r : Row) → r.state ≡ running → IsSound r → IsSound (release_row r)
unfolding release_row
release_row-IsSound r a s = ground arith

pub schedule_row-IsSound :
    (now : ℕ) (r : Row) → due now r ≡ true → IsSound r → IsSound (schedule_row r)
unfolding schedule_row due
schedule_row-IsSound now r a s = ground arith

pub reap_row-IsSound :
    (now delay ceiling : ℕ) (r : Row)
    → lapsed now r ≡ true
    → IsSound r
    → IsSound (reap_row now delay ceiling r)
unfolding reap_row lapsed
reap_row-IsSound now delay ceiling r a s = ground (arith, state_eq_iff r.state running)

abbrev pub is_retry : Completion → Bool
is_retry (retries d cause) = true
is_retry _ = false

pub completed_row-IsSound :
    (now : ℕ) (w : String) (c : Completion) (r : Row)
    → r.state ≡ running
    → (if is_retry c then 1 else 0) + r.attempt ≤ r.max_attempts
    → IsSound r
    → IsSound (completed_row now w c r)
unfolding completed_row succeed_row retry_row terminal_row snooze_row
completed_row-IsSound now w succeeds r a b s = ground arith
completed_row-IsSound now w (retries d cause) r a b s = ground arith
completed_row-IsSound now w (cancels cause) r a b s = ground arith
completed_row-IsSound now w (discards cause) r a b s = ground arith
completed_row-IsSound now w (snoozes d) r a b s = ground arith

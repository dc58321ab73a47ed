-- ===== src/Queue/Job.antt =====
-- internal/queue/queue.go, and the jobs table of migrations/0001_init.up.sql as rows. The times of
-- a row are in microseconds, the delay of a snooze in nanoseconds.
use gogolook_task_api.Prelude.{ℕ, String, Bool, true, false, Option, none, some, List}
use gogolook_task_api.Apperr.{Err, terminal_sentinel, snooze_error, joined, is_sentinel}

pub data State : Type 0 where
  available scheduled running retryable succeeded cancelled discarded : State

abbrev pub state_eq : State → State → Bool
state_eq available available = true
state_eq scheduled scheduled = true
state_eq running running = true
state_eq retryable retryable = true
state_eq succeeded succeeded = true
state_eq cancelled cancelled = true
state_eq discarded discarded = true
state_eq _ _ = false

-- One entry of the `errors` column; the worker is `locked_by`, which may be null.
pub record Failure : Type 0 where
  pub at : ℕ
  pub attempt : ℕ
  pub worker : Option String
  pub text : List ℕ

-- A row of `jobs`. `priority` is the smallint plus 2^15, which keeps its order. `created_at`,
-- which no statement names, is left out.
pub record Row : Type 0 where
  pub id : ℕ
  pub kind : String
  pub payload : List ℕ
  pub state : State
  pub priority : ℕ
  pub attempt : ℕ
  pub max_attempts : ℕ
  pub scheduled_at : ℕ
  pub locked_by : Option String
  pub locked_at : Option ℕ
  pub lease_expires_at : Option ℕ
  pub heartbeat_at : Option ℕ
  pub attempted_by : List String
  pub errors : List Failure
  pub unique_key : Option (List ℕ)
  pub finalized_at : Option ℕ

-- `Job`: a claimed unit of work.
pub record Job : Type 0 where
  pub id : ℕ
  pub kind : String
  pub payload : List ℕ
  pub attempt : ℕ
  pub max_attempts : ℕ
  pub waited : ℕ

pub data Outcome : Type 0 where
  succeeded retried cancelled discarded snoozed lost : Outcome

abbrev pub equals_terminal : Err → Bool
equals_terminal terminal_sentinel = true
equals_terminal _ = false

unfoldable pub is_terminal : Err → Bool
unfolding is_sentinel
is_terminal e = is_sentinel equals_terminal e

unfoldable pub terminal : Option Err → Err
terminal none = terminal_sentinel
terminal (some e) = joined terminal_sentinel e

unfoldable pub snooze : ℕ → String → Err
snooze d reason = snooze_error d reason

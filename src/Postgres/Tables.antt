-- ===== src/Postgres/Tables.antt =====
-- The tables of migrations/0001_init.up.sql and 0002, as the statements of the repository read and
-- write them: the rows of `tasks` by primary key, the jobs, the idempotency keys.
use gogolook_task_api.Prelude.{ℕ, String, Bool, List}
use gogolook_task_api.Task.{Store}
use gogolook_task_api.Queue.Store.{Table}
use gogolook_task_api.Idempotency.{Keys}

-- `next_job` is the identity of `jobs`, `notified` the kinds sent to listeners by NOTIFY.
pub record Database : Type 0 where
  pub tasks : Store
  pub jobs : Table
  pub keys : Keys
  pub next_job : ℕ
  pub notified : List String

-- What may fail on the way to the database: BEGIN, a statement, the insert of a job, COMMIT.
pub record Faults : Type 0 where
  pub begin : Bool
  pub statement : Bool
  pub enqueue : Bool
  pub commit : Bool

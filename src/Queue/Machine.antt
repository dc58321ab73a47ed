-- ===== src/Queue/Machine.antt =====
-- The jobs table under every interleaving of the statements of internal/queue: any workers, any
-- clocks, any job records, also stale ones; a statement is atomic, as a row-locking UPDATE is.
use gogolook_task_api.Prelude.{
  ℕ, ◌≤◌, ◌<◌, String, Bool, Option, none, some, List, [], ◌∷◌, ◌≡◌, ◌==◌, All,
}
use gogolook_task_api.Apperr.{Err}
use gogolook_task_api.Queue.Job.{Row, Job, available}
use gogolook_task_api.Queue.Store.{Table, claim, heartbeat, release}
use gogolook_task_api.Queue.Store.Guard.{find}
use gogolook_task_api.Queue.Maintenance.{reap, schedule, purge}
use gogolook_task_api.Queue.Outbox.{OutboxJob, enqueue}
use gogolook_task_api.Queue.Pool.{Config, finish}
pub mod Inserts
pub mod Invariant
mod Tables
pub mod Reached
pub mod Rescue
pub mod Ended
pub mod Unique

-- A job record that was read from the table: its budget is that of its row, which never changes.
abbrev pub IsReadFrom : Table → Job → Type 0
IsReadFrom t j = All (λ r. r.id ≡ j.id → r.max_attempts ≡ j.max_attempts) t

pub data Step (t : Table) : Table → Type 0 where
  enqueues :
      (refused : Bool) (now id : ℕ) (j : OutboxJob)
      → find id t ≡ none
      → Step t (enqueue refused now id j t).0
  claims :
      (now : ℕ) (w : String) (batch lease : ℕ) (locked : List ℕ)
      → Step t (claim now w batch lease locked t).0
  beats : (now : ℕ) (w : String) (ids : List ℕ) (lease : ℕ) → Step t (heartbeat now w ids lease t).0
  finishes :
      (refused : Bool) (p : Config) (now : ℕ) (j : Job) (cause : Option Err)
      → IsReadFrom t j
      → Step t (finish refused p now j cause t).1
  releases : (w : String) (ids : List ℕ) → Step t (release w ids t).0
  reaps : (now delay ceiling : ℕ) → Step t (reap now delay ceiling t).0
  schedules : (now : ℕ) → Step t (schedule now t).0
  purges :
      (now kept_succeeded kept_discarded : ℕ) → Step t (purge now kept_succeeded kept_discarded t).0

-- The tables that an empty one can become.
pub data Reach : Table → Type 0 where
  start : Reach []
  next : {t u : Table} → Reach t → Step t u → Reach u

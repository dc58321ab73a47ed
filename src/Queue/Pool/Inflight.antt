-- ===== src/Queue/Pool/Inflight.antt =====
-- The pool's own state in internal/queue/pool.go: the jobs in flight, the claim loop's batch, the
-- run of one job, the heartbeat and the drain. What the environment decides (the clock, a context
-- that ends, a database that refuses a statement, a worker that receives) is an argument.
use gogolook_task_api.Prelude.{
  ℕ, zero, suc, String, Bool, true, false, ◌||◌, Option, none, some, List, [], ◌∷◌, ◌++◌, ◌==◌,
  length, if◌then◌else◌,
}
use gogolook_task_api.Apperr.{Err}
use gogolook_task_api.Queue.Job.{Job, Outcome}
use gogolook_task_api.Queue.Store.{Table, claim, release, heartbeat}
use gogolook_task_api.Queue.Pool.Decide.{Config, Handlers, finish, invoke}

-- `Event`, without the durations and the trace.
pub record Event : Type 0 where
  pub job_id : ℕ
  pub kind : String
  pub attempt : ℕ
  pub outcome : Outcome
  pub err : Option Err
  pub waited : ℕ

-- The database and the pool. `inflight` maps a job to whether it has a cancel function yet;
-- `cancelled` lists the jobs whose cancel function was called, `handed` those sent to the workers.
pub record System : Type 0 where
  pub table : Table
  pub inflight : List (ℕ × Bool)
  pub draining : Bool
  pub cancelled : List ℕ
  pub handed : List Job
  pub events : List Event

unfoldable pub untrack : ℕ → List (ℕ × Bool) → List (ℕ × Bool)
untrack i [] = []
untrack i ((j, c) ∷ m) = let rest = untrack i m in if j == i then rest else (j, c) ∷ rest

unfoldable pub track : ℕ → Bool → List (ℕ × Bool) → List (ℕ × Bool)
unfolding untrack
track i c m = (i, c) ∷ untrack i m

-- `snapshot`: the ids, and the jobs that have a cancel function.
abbrev pub tracked_ids : List (ℕ × Bool) → List ℕ
tracked_ids [] = []
tracked_ids ((i, c) ∷ m) = i ∷ tracked_ids m

abbrev pub cancels_of : List (ℕ × Bool) → List ℕ
cancels_of [] = []
cancels_of ((i, true) ∷ m) = i ∷ cancels_of m
cancels_of ((i, false) ∷ m) = cancels_of m

-- The loop of `claimBatch` over a claimed batch: a job is tracked and then sent. After `sent` of
-- them the context ends, and the job at hand is handed back.
unfoldable pub dispatch : Config → ℕ → List Job → System → Bool × System
unfolding track untrack release
dispatch p sent [] s = (true, s)
dispatch p zero (j ∷ js) s = (
  false,
  record s {
    inflight = untrack j.id (track j.id false s.inflight);
    table = (release p.worker_id (j.id ∷ []) s.table).0;
  },
)
dispatch p (suc sent) (j ∷ js) s =
    dispatch p sent js
      (record s { inflight = track j.id false s.inflight; handed = s.handed ++ j ∷ [] })

unfoldable pub claimed_batch : Config → ℕ → List Job → System → Bool × System
unfolding dispatch
claimed_batch p sent [] s = (false, s)
claimed_batch p sent (j ∷ js) s =
    let (all_sent, s') = dispatch p sent (j ∷ js) s in
    (if all_sent then length (j ∷ js) == p.claim_batch else false, s')

-- `claimBatch`: claims once and dispatches; true where there may be more.
unfoldable pub claim_batch :
    Config → (ended refused : Bool) (now : ℕ) (locked : List ℕ) (sent : ℕ) → System → Bool × System
unfolding claimed_batch
claim_batch p ended refused now locked sent s =
    let (t', jobs) = claim now p.worker_id p.claim_batch p.lease locked s.table in
    if ended || s.draining || refused
    then (false, s)
    else claimed_batch p sent jobs (record s { table = t' })

-- `run`: executes one job, records what happened and publishes it.
unfoldable pub run : Config → Handlers → (refused : Bool) (now : ℕ) → Job → System → System
unfolding track untrack
run p handlers refused now j s =
    let cause = invoke handlers j in
    let (outcome, t') = finish refused p now j cause s.table in
    record s {
      table = t';
      inflight = untrack j.id (track j.id true s.inflight);
      events =
          s.events
          ++ record {
            job_id = j.id;
            kind = j.kind;
            attempt = j.attempt;
            outcome = outcome;
            err = cause;
            waited = j.waited;
          }
            ∷ [];
    }

unfoldable pub beat_ids : Config → ℕ → List ℕ → System → System
beat_ids p now ids s =
    let (t', held) = heartbeat now p.worker_id ids p.lease s.table in
    if held == length ids
    then record s { table = t' }
    else record s { table = t'; cancelled = s.cancelled ++ cancels_of s.inflight }

-- `beat`: extends every lease in flight; where one was lost it calls every cancel function.
unfoldable pub beat : Config → (refused : Bool) (now : ℕ) → System → System
unfolding beat_ids
beat p refused now s = elim (tracked_ids s.inflight) [
  | [] ↦ s
  | i ∷ ids ↦ if refused then s else beat_ids p now (i ∷ ids) s
]

-- `releaseInflight`: hands back what still runs, and then calls the cancel functions.
unfoldable pub release_inflight : Config → (refused : Bool) → System → System
release_inflight p refused s = elim (tracked_ids s.inflight) [
  | [] ↦ s
  | i ∷ ids ↦ record s {
    table = if refused then s.table else (release p.worker_id (i ∷ ids) s.table).0;
    cancelled = s.cancelled ++ cancels_of s.inflight;
  }
]

-- `Stop` closes `draining` first.
unfoldable pub begin_drain : System → System
begin_drain s = record s { draining = true }

-- One round of `Stop`'s wait: it ends with nothing in flight, or at the deadline by a release;
-- `none` waits on.
unfoldable pub drain_round : Config → (deadline refused : Bool) → System → Option System
unfolding release_inflight
drain_round p deadline refused s = elim s.inflight [
  | [] ↦ some s
  | _ ↦ if deadline then some (release_inflight p refused s) else none
]

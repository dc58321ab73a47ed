-- ===== src/Queue/Samples.antt =====
-- A small jobs table, worker and failures for the tests and instances of the queue.
use gogolook_task_api.Prelude.{ℕ, false, Option, none, some, [], ◌∷◌}
use gogolook_task_api.Queue.Job.{Row, Job, State, available, running, succeeded}
use gogolook_task_api.Queue.Store.{Table}
use gogolook_task_api.Queue.Backoff.{Backoff}
use gogolook_task_api.Queue.Pool.{Config, System, Handlers, panics}

-- Job 7 runs under worker "w1", second attempt of four, leased until 130.
abbrev pub held_row : Row
held_row = record {
  id = 7;
  kind = "mail";
  payload = [];
  state = running;
  priority = 32768;
  attempt = 2;
  max_attempts = 4;
  scheduled_at = 90;
  locked_by = some "w1";
  locked_at = some 100;
  lease_expires_at = some 130;
  heartbeat_at = some 100;
  attempted_by = "w0" ∷ "w1" ∷ [];
  errors = [];
  unique_key = none;
  finalized_at = none;
}

abbrev pub unlocked : ℕ → State → Option ℕ → Row
unlocked id state finalized = record held_row {
  id = id;
  state = state;
  locked_by = none;
  locked_at = none;
  lease_expires_at = none;
  finalized_at = finalized;
}

abbrev pub free_row : Row
free_row = unlocked 8 available none

abbrev pub done_row : Row
done_row = unlocked 9 succeeded (some 95)

abbrev pub jobs : Table
jobs = held_row ∷ free_row ∷ done_row ∷ []

abbrev pub held_job : Job
held_job = record {
  id = 7;
  kind = "mail";
  payload = [];
  attempt = 2;
  max_attempts = 4;
  waited = 10;
}

abbrev pub steady : Backoff
steady = record { base = 1000; max_delay = 100000; jitter = "equal"; draw = λ x. x }

abbrev pub worker : Config
worker = record {
  worker_id = "w1";
  max_attempts = 3;
  claim_batch = 2;
  lease = 30000;
  backoff = steady;
  error_text = λ e. [];
}

abbrev pub pool_state : System
pool_state = record {
  table = jobs;
  inflight = [];
  draining = false;
  cancelled = [];
  handed = [];
  events = [];
}

abbrev pub handlers : Handlers
handlers = ("mail", λ j. panics "nil pointer") ∷ []

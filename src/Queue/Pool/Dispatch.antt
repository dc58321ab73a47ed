-- ===== src/Queue/Pool/Dispatch.antt =====
-- A context that ends while `claimBatch` of internal/queue/pool.go hands a batch to the workers.
use gogolook_task_api.Prelude.{List, ◌≡◌, ◌≢◌, refl}
use gogolook_task_api.Queue.Job.{Row, Job}
use gogolook_task_api.Queue.Store.{release_row}

pub release_row-id : (r : Row) → (release_row r).id ≡ r.id
unfolding release_row
release_row-id r = refl

abbrev NotOf : Job → Job → Type 0
NotOf k j = j.id ≢ k.id

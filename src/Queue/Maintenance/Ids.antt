-- ===== src/Queue/Maintenance/Ids.antt =====
-- The sweeps of internal/queue/maintenance.go keep the primary key of a row, and so of a table.
use gogolook_task_api.Prelude.{ℕ, ◌≡◌, refl}
use gogolook_task_api.Prelude.Interval.{interval}
use gogolook_task_api.Queue.Job.{Row}
use gogolook_task_api.Queue.Store.{Table}
use gogolook_task_api.Queue.Store.Guard.{Distinct, Distinct-update}
use gogolook_task_api.Queue.Maintenance.Sweeps.{reap, reap_row, schedule, schedule_row}

pub reap_row-id : (now delay ceiling : ℕ) (r : Row) → (reap_row now delay ceiling r).id ≡ r.id
unfolding reap_row
reap_row-id now delay ceiling r = refl

pub schedule_row-id : (r : Row) → (schedule_row r).id ≡ r.id
unfolding schedule_row
schedule_row-id r = refl

pub reap-Distinct :
    (now delay ceiling : ℕ) (t : Table) → Distinct t → Distinct (reap now delay ceiling t).0
unfolding reap
reap-Distinct now delay ceiling t d =
    Distinct-update _ _ t (reap_row-id now (interval delay) ceiling) d

pub schedule-Distinct : (now : ℕ) (t : Table) → Distinct t → Distinct (schedule now t).0
unfolding schedule
schedule-Distinct now t d = Distinct-update _ _ t schedule_row-id d

-- ===== src/Queue/Examples/Interleavings.antt =====
-- The theorems on reachable tables, at a job that is enqueued, claimed and finished.
use gogolook_task_api.Prelude.{ℕ, ◌≤◌, ◌+◌, false, none, some, [], ◌∷◌, ◌≡◌, ◌≢◌, ◌⊎◌, refl}
use gogolook_task_api.Prelude.Int.{pos}
use gogolook_task_api.Queue.Job.{Row, Job, running, succeeded}
use gogolook_task_api.Queue.Store.{Table, claim, claim_row, succeed, succeed_row, guard, guarded}
use gogolook_task_api.Queue.Store.Guard.{find}
use gogolook_task_api.Queue.Maintenance.{reap}
use gogolook_task_api.Queue.Outbox.{OutboxJob, enqueue, new_row}
use gogolook_task_api.Queue.Pool.{finish}
use gogolook_task_api.Queue.Machine.{enqueues, claims, finishes, Reach, start, next}
use gogolook_task_api.Queue.Machine.Reached.{IsSoundTable, Reach-IsSoundTable}
use gogolook_task_api.Queue.Machine.Unique.{Reach-IsUnique, IsUnique}
use gogolook_task_api.Queue.Machine.Rescue.{Reach-reaped}
use gogolook_task_api.Queue.Machine.Ended.{Reach-ended}
use gogolook_task_api.Queue.Samples.{held_job, worker}

abbrev mail : OutboxJob
mail = record { kind = "mail"; payload = some []; unique_key = 107 ∷ []; max_attempts = pos 4 }

abbrev queued : Table
queued = (enqueue false 90 7 mail []).0

queued-Reach : Reach queued
queued-Reach = next start (enqueues false 90 7 mail refl)

abbrev leased : Row
unfolding claim_row new_row
leased = claim_row 100 "w1" 30 (new_row 90 7 "mail" [] (107 ∷ []) 4)

abbrev claimed : Table
claimed = (claim 100 "w1" 2 30000 [] queued).0

claimed-Reach : Reach claimed
claimed-Reach = next queued-Reach (claims 100 "w1" 2 30000 [])

claimed-find : find 7 claimed ≡ some leased
unfolding claim claim_row enqueue
claimed-find = refl

leased_running : leased.state ≡ running
unfolding claim_row leased
leased_running = refl

Reach-IsSoundTable_example : IsSoundTable claimed
Reach-IsSoundTable_example = Reach-IsSoundTable claimed-Reach

Reach-reaped_example :
    (l : ℕ) × (leased.lease_expires_at ≡ some l)
    × ((wait : ℕ)
        → let (t', again, gone) = reap (l + 1 + wait) 10000 3 claimed in
          (q : Row) × (find 7 t' ≡ some q)
          × (q.state ≢ running)
          × (q.locked_by ≡ none)
          × (1 ≤ again + gone))
Reach-reaped_example = Reach-reaped 7 leased 10000 3 claimed-Reach claimed-find leased_running

abbrev first_job : Job
first_job = record held_job { attempt = 1 }

abbrev finished : Table
finished = (finish false worker 110 first_job none claimed).1

finished-Reach : Reach finished
unfolding claim claim_row enqueue
finished-Reach = next claimed-Reach (finishes false worker 110 first_job none ((λ e. refl), tt))

abbrev ended : Row
unfolding claim_row succeed_row
ended = succeed_row 110 leased

finished-find : find 7 finished ≡ some ended
unfolding claim claim_row finish succeed succeed_row guarded guard enqueue
finished-find = refl

ended_succeeded : ended.state ≡ succeeded
unfolding claim_row succeed_row
ended_succeeded = refl

Reach-ended_example :
    let u = (claim 120 "w2" 2 30000 [] finished).0 in (find 7 u ≡ some ended) ⊎ (find 7 u ≡ none)
Reach-ended_example =
    Reach-ended 7 ended finished-Reach (claims 120 "w2" 2 30000 []) finished-find
      (unfold claim_row succeed_row in refl)

Reach-IsUnique_example : IsUnique claimed
Reach-IsUnique_example = Reach-IsUnique claimed-Reach

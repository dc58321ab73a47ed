-- ===== src/Queue/Examples/Statements.antt =====
-- internal/queue/store.go and internal/queue/maintenance.go at the sample table.
use gogolook_task_api.Prelude.{
  ◌≤◌, true, false, none, some, [], ◌∷◌, map, count, ◌≡◌, ◌↔◌, refl, arith,
}
use gogolook_task_api.Queue.Job.{discarded}
use gogolook_task_api.Queue.Store.{complete, succeeds, claim, claim_row, guard, guarded, job_of}
use gogolook_task_api.Queue.Store.Guard.{find, Distinct}
use gogolook_task_api.Queue.Store.Held.{IsHeld, complete_held_iff}
use gogolook_task_api.Queue.Maintenance.{
  lapsed, reap, reap_row, schedule, purge, purgeable, purge_batch, lapsed_to,
}
use gogolook_task_api.Queue.Maintenance.Retention.{reaped_at_ceiling_stays}
use gogolook_task_api.Queue.Zombie.{zombie_refused}
use gogolook_task_api.Queue.Samples.{held_row, jobs, held_job}

pub Distinct-jobs : Distinct jobs
Distinct-jobs = (refl, (refl, (refl, tt)))

pub held : IsHeld "w1" held_job jobs
held = (held_row, refl, refl, refl, refl)

claimed_ids : map (λ j. j.id) (claim 120 "w2" 5 30000 [] jobs).1 ≡ 8 ∷ []
unfolding claim claim_row job_of
claimed_ids = refl

reaped_counts : (reap 131 10000 3 jobs).1 ≡ 1
unfolding reap lapsed_to lapsed
reaped_counts = refl

complete_held_iff_example :
    ((complete 120 "w1" held_job succeeds jobs).1 ≡ true) ↔ IsHeld "w1" held_job jobs
complete_held_iff_example = complete_held_iff 120 "w1" held_job succeeds jobs Distinct-jobs

stale : (complete 120 "w2" held_job succeeds jobs).1 ≡ false
unfolding complete guarded guard
stale = refl

few : count (purgeable 200 10 10) jobs ≤ purge_batch
unfolding purgeable
few = omega arith

late : lapsed 131 held_row ≡ true
unfolding lapsed
late = refl

reaped_at_ceiling_stays_example :
    let q = reap_row 131 10 2 held_row in
    let t' = (reap 131 10000 2 jobs).0 in
    (q.state ≡ discarded)
    × (q.finalized_at ≡ none)
    × (find 7 t' ≡ some q)
    × (find 7 (purge 9000 10000 10000 t').0 ≡ some q)
reaped_at_ceiling_stays_example =
    reaped_at_ceiling_stays jobs 7 held_row 131 10000 2 9000 10000 10000 refl late (omega arith)
      (omega arith)

zombie_refused_example :
    let t1 = (reap 131 10000 3 jobs).0 in
    let t2 = (claim 160 "w1" 5 30000 [] (schedule 150 t1).0).0 in
    ((complete 170 "w1" held_job succeeds t1).1 ≡ false)
    × ((complete 170 "w1" held_job succeeds t1).0 ≡ t1)
    × ((complete 170 "w1" held_job succeeds t2).1 ≡ false)
    × ((complete 170 "w1" held_job succeeds t2).0 ≡ t2)
zombie_refused_example =
    zombie_refused jobs held_row "w1" "w1" held_job succeeds [] 131 10000 3 150 160 5 30000 170
      Distinct-jobs refl late refl

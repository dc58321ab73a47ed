-- ===== src/Queue/Zombie.antt =====
-- A worker that comes back after the reaper took its job: internal/queue/store.go's claim guard
-- against internal/queue/maintenance.go's reaper.
use gogolook_task_api.Prelude.{
  ℕ, ◌+◌, String, true, false, some, List, if◌then◌else◌, ◌≡◌, ◌≢◌, ◌⊎◌, refl, inl, inr, Bool-cases,
  arith,
}
use gogolook_task_api.Prelude.Interval.{interval}
use gogolook_task_api.Queue.Job.{Row, Job, running}
use gogolook_task_api.Queue.Store.{
  Table, contains, claim, claim_ids, claim_row, selected, ids_of, Completion, complete,
}
use gogolook_task_api.Queue.Store.Guard.{find, Distinct, Distinct-update, find-update}
use gogolook_task_api.Queue.Store.Held.{IsHeld, complete_held_iff, complete_refused}
use gogolook_task_api.Queue.Maintenance.Ids.{
  reap_row-id, schedule_row-id, reap-Distinct, schedule-Distinct,
}
use gogolook_task_api.Queue.Maintenance.{lapsed, reap, reap_row, due, schedule, schedule_row}

pub claim_row-id :
    (now : ℕ) (w : String) (lease : ℕ) (r : Row) → (claim_row now w lease r).id ≡ r.id
unfolding claim_row
claim_row-id now w lease r = refl

-- Nobody runs the job, and its row stands at the attempt of an old claim.
abbrev IsIdle : Job → Table → Type 0
IsIdle j t = (r : Row) × (find j.id t ≡ some r) × (r.state ≢ running) × (r.attempt ≡ j.attempt)

-- The row is past the claim: nobody runs it, or it runs at a later attempt.
abbrev IsPast : Job → Table → Type 0
IsPast j t =
    (r : Row) × (find j.id t ≡ some r) × ((r.state ≢ running) ⊎ (r.attempt ≡ j.attempt + 1))

module _ (now delay ceiling : ℕ) (j : Job) (t : Table) where
  reap-IsIdle :
      (r : Row)
      → find j.id t ≡ some r
      → lapsed now r ≡ true
      → r.attempt ≡ j.attempt
      → IsIdle j (reap now delay ceiling t).0
  unfolding reap
  reap-IsIdle r e late same = (
    reap_row now (interval delay) ceiling r,
    ground (
      arith,
      find-update (lapsed now) (reap_row now (interval delay) ceiling) j.id t
          (reap_row-id now (interval delay) ceiling),
    ),
    unfold reap_row in ground arith,
    unfold reap_row in same,
  )

module _ (now : ℕ) (j : Job) (t : Table) where
  schedule-IsIdle : IsIdle j t → IsIdle j (schedule now t).0
  unfolding schedule schedule_row
  schedule-IsIdle (r, e, idle, same) = (
    if due now r then schedule_row r else r,
    ground (arith, find-update (due now) schedule_row j.id t schedule_row-id),
    ground arith,
    ground arith,
  )

module _ (now : ℕ) (w : String) (lease : ℕ) (ids : List ℕ) (j : Job) (t : Table) where
  claim_ids-IsPast : IsIdle j t → IsPast j (claim_ids now w lease ids t).0
  unfolding claim_ids claim_row
  claim_ids-IsPast (r, e, idle, same) = (
    if contains ids r.id then claim_row now w lease r else r,
    ground (
      arith,
      find-update (λ r. contains ids r.id) (claim_row now w lease) j.id t
          (claim_row-id now w lease),
    ),
    ground arith,
  )

claim-IsPast :
    (now : ℕ) (w : String) (batch lease : ℕ) (locked : List ℕ) (j : Job) (t : Table)
    → IsIdle j t
    → IsPast j (claim now w batch lease locked t).0
unfolding claim
claim-IsPast now w batch lease locked j t h =
    claim_ids-IsPast now w (interval lease) (ids_of (selected now locked batch t)) j t h

IsPast-not_held : (w : String) (j : Job) (t : Table) → IsPast j t → ¬ IsHeld w j t
IsPast-not_held w j t (r, e, past) (q, e', is_running, locked, same) = ground arith

refused :
    (now : ℕ) (w : String) (j : Job) (c : Completion) (t : Table)
    → Distinct t
    → ¬ IsHeld w j t
    → ((complete now w j c t).1 ≡ false) × ((complete now w j c t).0 ≡ t)
refused now w j c t d h = elim (Bool-cases (complete now w j c t).1) [
  | inl held ↦ absurd (h ((complete_held_iff now w j c t d).0 held))
  | inr lost ↦ (lost, complete_refused now w j c t d lost)
]

claim-Distinct :
    (now : ℕ) (w : String) (batch lease : ℕ) (locked : List ℕ) (t : Table)
    → Distinct t
    → Distinct (claim now w batch lease locked t).0
unfolding claim claim_ids
claim-Distinct now w batch lease locked t d =
    Distinct-update _ _ t (claim_row-id now w (interval lease)) d

-- A job whose lease has lapsed is reaped, made available and claimed anew, by any worker. From the
-- reaping on, whatever completion write the old claim makes, right after the reaping or after the
-- new claim, reports a lost claim and leaves the table as it was.
pub zombie_refused :
    (t : Table) (r : Row) (w w' : String) (j : Job) (c : Completion) (locked : List ℕ)
    (reaped delay ceiling scheduled claimed batch lease late : ℕ)
    → Distinct t
    → find j.id t ≡ some r
    → lapsed reaped r ≡ true
    → r.attempt ≡ j.attempt
    → let t1 = (reap reaped delay ceiling t).0 in
      let t2 = (claim claimed w' batch lease locked (schedule scheduled t1).0).0 in
      ((complete late w j c t1).1 ≡ false)
      × ((complete late w j c t1).0 ≡ t1)
      × ((complete late w j c t2).1 ≡ false)
      × ((complete late w j c t2).0 ≡ t2)
zombie_refused t r w w' j c locked reaped delay ceiling scheduled claimed batch lease late d e lapse
      same =
    let t1 = (reap reaped delay ceiling t).0 in
    let s = (schedule scheduled t1).0 in
    let t2 = (claim claimed w' batch lease locked s).0 in
    let idle = reap-IsIdle reaped delay ceiling j t r e lapse same in
    let past =
      claim-IsPast claimed w' batch lease locked j s (schedule-IsIdle scheduled j t1 idle) in
    let d1 = reap-Distinct reaped delay ceiling t d in
    let d2 = claim-Distinct claimed w' batch lease locked s (schedule-Distinct scheduled t1 d1) in
    let (lost1, same1) =
      refused late w j c t1 d1 (IsPast-not_held w j t1 (idle.0, idle.1, inl idle.2)) in
    let (lost2, same2) = refused late w j c t2 d2 (IsPast-not_held w j t2 past) in
    (lost1, same1, lost2, same2)

-- ===== src/Queue/Machine/Reached.antt =====
-- What holds of the jobs table after any interleaving of the statements of internal/queue.
use gogolook_task_api.Prelude.{
  ℕ, ◌+◌, ◌≤◌, ◌<◌, String, Bool, true, false, Option, List, [], ◌∷◌, All, All-both, if◌then◌else◌,
  ◌≡◌, refl, sym, subst, none, inl, inr, Bool-cases, arith,
}
use gogolook_task_api.Apperr.{Err}
use gogolook_task_api.Prelude.Interval.{interval}
use gogolook_task_api.Queue.Job.{
  Row, Job, State, Outcome, succeeded, retried, cancelled, discarded, snoozed, lost, running,
}
use gogolook_task_api.Queue.Store.{
  Table, Completion, complete, completed_row, holds, guard, guarded, heartbeat, heartbeat_row,
  release, release_row, claim, claim_ids, claim_row, claimable, selected, ids_of, contains,
}
use gogolook_task_api.Queue.Outbox.{OutboxJob, enqueue}
use gogolook_task_api.Queue.Store.Guard.{find, Distinct, Distinct-update, guard_iff, state_eq_iff}
use gogolook_task_api.Queue.Store.Held.{complete-guarded, completed_row-id}
use gogolook_task_api.Queue.Store.Claims.{claim-Distinct, IsRowOf, Distinct-rows, taken-claimable}
use gogolook_task_api.Queue.Maintenance.{
  lapsed, reap, reap_row, due, schedule, schedule_row, purge, purgeable, purge_batch,
}
use gogolook_task_api.Queue.Maintenance.Ids.{reap-Distinct, schedule-Distinct}
use gogolook_task_api.Queue.Pool.{Config, finish, max_attempts}
use gogolook_task_api.Queue.Pool.Outcomes.{Fits, written}
use gogolook_task_api.Queue.Pool.Dispatch.{release_row-id}
use gogolook_task_api.Queue.Machine.Tables.{All-update, All-delete, Distinct-delete}
use gogolook_task_api.Queue.Machine.{
  IsReadFrom, Step, enqueues, claims, beats, finishes, releases, reaps, schedules, purges, Reach,
  start, next,
}
use gogolook_task_api.Queue.Machine.Inserts.{IsNew, Inserted, enqueue-cases}
use gogolook_task_api.Queue.Machine.Invariant.{
  IsSound, is_retry, claim_row-IsSound, heartbeat_row-IsSound, release_row-IsSound,
  schedule_row-IsSound, reap_row-IsSound, completed_row-IsSound,
}

-- The invariant of the table.
pub record IsSoundTable (t : Table) : Type 0 where
  pub distinct : Distinct t
  pub rows : All IsSound t

claim-rows :
    (now : ℕ) (w : String) (batch lease : ℕ) (locked : List ℕ) (t : Table)
    → IsSoundTable t
    → All IsSound (claim now w batch lease locked t).0
unfolding claim claim_ids claimable
claim-rows now w batch lease locked t v =
    All-update (λ r. IsRowOf t r × IsSound r) IsSound
      (λ r. contains (ids_of (selected now locked batch t)) r.id) (claim_row now w (interval lease))
      t
      (λ r hit a.
        claim_row-IsSound now w (interval lease) r
          (ground (
            arith,
            state_eq_iff r.state State.available,
            taken-claimable now w batch lease locked t r.id r v.distinct a.0 hit,
          ))
          a.1)
      (λ r a. a.1) (All-both _ _ t (Distinct-rows t v.distinct) v.rows)

Fits-left :
    (p : Config) (j : Job) (cause : Option Err) (o : Outcome) (c : Completion)
    → Fits p j cause o c
    → is_retry c ≡ true
    → j.attempt < j.max_attempts
unfolding max_attempts
Fits-left p j cause succeeded c f h = ground arith
Fits-left p j cause retried c (e, _, _, _, left, _) h = ground arith
Fits-left p j cause cancelled c (e, _, _, _, f) h = ground arith
Fits-left p j cause discarded c (e, _, _, _, _, f) h = ground arith
Fits-left p j cause snoozed c (e, _, d, r, _, f) h = ground arith
Fits-left p j cause lost c f h = absurd f

guarded-rows :
    (now : ℕ) (w : String) (j : Job) (c : Completion) (t : Table)
    → IsReadFrom t j
    → (is_retry c ≡ true → j.attempt < j.max_attempts)
    → All IsSound t
    → All IsSound (complete now w j c t).0
unfolding guarded
guarded-rows now w j c t read left rows = rw (complete-guarded now w j c t) (
    All-update (λ r. (r.id ≡ j.id → r.max_attempts ≡ j.max_attempts) × IsSound r) IsSound
      (guard w j) (completed_row now w c) t
      (λ r hit a.
        let (same_id, is_running, _, same) = (guard_iff w j r).0 hit in
        completed_row-IsSound now w c r is_running (spare r (a.0 same_id) same a.1) a.1)
      (λ r a. a.1) (All-both _ _ t read rows))
  where
    spare :
        (r : Row)
        → r.max_attempts ≡ j.max_attempts
        → r.attempt ≡ j.attempt
        → IsSound r
        → (if is_retry c then 1 else 0) + r.attempt ≤ r.max_attempts
    spare r e k s = elim (Bool-cases (is_retry c)) [
      | inl again ↦ ground (arith, left again)
      | inr over ↦ ground arith
    ]

pub finish-table :
    (refused : Bool) (p : Config) (now : ℕ) (j : Job) (cause : Option Err) (t : Table)
    → (P : Table → Type 0) → P t
    → ((c : Completion) (o : Outcome) → Fits p j cause o c → P (complete now p.worker_id j c t).0)
    → P (finish refused p now j cause t).1
unfolding finish
finish-table true p now j cause t P kept h = kept
finish-table false p now j cause t P kept h =
    let w = written p now j t cause in
    elim (Bool-cases (complete now p.worker_id j w.completion t).1) [
      | inl lands ↦ rw (w.same, lands) (h w.completion w.outcome w.fits)
      | inr missed ↦ rw (w.same, missed) (h w.completion w.outcome w.fits)
    ]

pub heartbeat_row-id : (now lease : ℕ) (r : Row) → (heartbeat_row now lease r).id ≡ r.id
unfolding heartbeat_row
heartbeat_row-id now lease r = refl

complete-Distinct :
    (now : ℕ) (w : String) (j : Job) (c : Completion) (t : Table)
    → Distinct t
    → Distinct (complete now w j c t).0
unfolding guarded
complete-Distinct now w j c t d =
    rw (complete-guarded now w j c t) (Distinct-update _ _ t (completed_row-id now w c) d)

pub holds-running : (w : String) (ids : List ℕ) (r : Row) → holds w ids r ≡ true → r.state ≡ running
unfolding holds
holds-running w ids r h = ground (arith, state_eq_iff r.state running)

beats_sound :
    (now : ℕ) (w : String) (ids : List ℕ) (lease : ℕ) (t : Table)
    → IsSoundTable t
    → IsSoundTable (heartbeat now w ids lease t).0
unfolding heartbeat
beats_sound now w [] lease t v = v
beats_sound now w (i ∷ ids) lease t v = record {
  distinct = Distinct-update _ _ t (heartbeat_row-id now (interval lease)) v.distinct;
  rows =
      All-update IsSound IsSound (holds w (i ∷ ids)) (heartbeat_row now (interval lease)) t
        (λ r hit s.
          heartbeat_row-IsSound now (interval lease) r (holds-running w (i ∷ ids) r hit) s)
        (λ r s. s) v.rows;
}

releases_sound :
    (w : String) (ids : List ℕ) (t : Table) → IsSoundTable t → IsSoundTable (release w ids t).0
unfolding release
releases_sound w [] t v = v
releases_sound w (i ∷ ids) t v = record {
  distinct = Distinct-update _ _ t release_row-id v.distinct;
  rows =
      All-update IsSound IsSound (holds w (i ∷ ids)) release_row t
        (λ r hit s. release_row-IsSound r (holds-running w (i ∷ ids) r hit) s) (λ r s. s) v.rows;
}

new-IsSound : (r : Row) → IsNew r → IsSound r
new-IsSound r n = ground arith

Inserted-IsSoundTable :
    (id : ℕ) (j : OutboxJob) (t u : Table)
    → find id t ≡ none
    → IsSoundTable t
    → Inserted id j t u
    → IsSoundTable u
Inserted-IsSoundTable id j t u fresh v i = subst IsSoundTable (sym i.added) (record {
  distinct = (subst (λ k. find k t ≡ none) (sym i.has_id) fresh, v.distinct);
  rows = (new-IsSound i.row i.is_new, v.rows);
})

pub Step-IsSoundTable : {t u : Table} → Step t u → IsSoundTable t → IsSoundTable u
unfolding schedule reap purge
Step-IsSoundTable {t} (enqueues refused now id j fresh) v =
    elim (enqueue-cases refused now id j t) [
      | inl same ↦ subst IsSoundTable (sym same) v
      | inr i ↦ Inserted-IsSoundTable id j t (enqueue refused now id j t).0 fresh v i
    ]
Step-IsSoundTable {t} (claims now w batch lease locked) v = record {
  distinct = claim-Distinct now w batch lease locked t v.distinct;
  rows = claim-rows now w batch lease locked t v;
}
Step-IsSoundTable {t} (beats now w ids lease) v = beats_sound now w ids lease t v
Step-IsSoundTable {t} (finishes refused p now j cause read) v =
    finish-table refused p now j cause t IsSoundTable v λ c o f. record {
      distinct = complete-Distinct now p.worker_id j c t v.distinct;
      rows = guarded-rows now p.worker_id j c t read (Fits-left p j cause o c f) v.rows;
    }
Step-IsSoundTable {t} (releases w ids) v = releases_sound w ids t v
Step-IsSoundTable {t} (reaps now delay ceiling) v = record {
  distinct = reap-Distinct now delay ceiling t v.distinct;
  rows =
      All-update IsSound IsSound (lapsed now) (reap_row now (interval delay) ceiling) t
        (λ r hit s. reap_row-IsSound now (interval delay) ceiling r hit s) (λ r s. s) v.rows;
}
Step-IsSoundTable {t} (schedules now) v = record {
  distinct = schedule-Distinct now t v.distinct;
  rows =
      All-update IsSound IsSound (due now) schedule_row t
        (λ r hit s. schedule_row-IsSound now r hit s) (λ r s. s) v.rows;
}
Step-IsSoundTable {t} (purges now ks kd) v = record {
  distinct = Distinct-delete purge_batch (purgeable now (interval ks) (interval kd)) t v.distinct;
  rows = All-delete IsSound purge_batch (purgeable now (interval ks) (interval kd)) t v.rows;
}

-- Whatever statements any workers, sweepers and producers make, in whatever order: ids stay
-- distinct, a job has an owner and a lease exactly while it runs, a running job has an attempt
-- under way, the attempts stay within the job's budget with one left to every waiting job, and no
-- live job is marked finalized.
pub Reach-IsSoundTable : {t : Table} → Reach t → IsSoundTable t
Reach-IsSoundTable start = record { distinct = tt; rows = tt }
Reach-IsSoundTable (next r s) = Step-IsSoundTable s (Reach-IsSoundTable r)

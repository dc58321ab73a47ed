-- ===== src/Queue/Machine/Ended.antt =====
-- A job that is done stays as it is, under every statement of internal/queue, until it is purged.
use gogolook_task_api.Prelude.{
  ℕ, String, Bool, true, false, none, some, List, [], ◌∷◌, ◌≡◌, ◌⊎◌, inl, inr, subst, sym, arith,
}
use gogolook_task_api.Prelude.Interval.{interval}
use gogolook_task_api.Queue.Job.{Row, Job, State, succeeded, cancelled, discarded}
use gogolook_task_api.Queue.Store.{
  Table, Completion, complete, completed_row, holds, guard, guarded, heartbeat, release, claim,
  claimable,
}
use gogolook_task_api.Queue.Store.Guard.{find, Distinct}
use gogolook_task_api.Queue.Store.Held.{complete-guarded, completed_row-id}
use gogolook_task_api.Queue.Store.Claims.{claim-find}
use gogolook_task_api.Queue.Maintenance.{
  lapsed, reap, reap_row, due, schedule, schedule_row, purge, purgeable, purge_batch,
}
use gogolook_task_api.Queue.Maintenance.Ids.{reap_row-id, schedule_row-id}
use gogolook_task_api.Queue.Pool.Dispatch.{release_row-id}
use gogolook_task_api.Queue.Machine.{
  Step, enqueues, claims, beats, finishes, releases, reaps, schedules, purges, Reach,
}
use gogolook_task_api.Queue.Machine.Inserts.{enqueue-cases}
use gogolook_task_api.Queue.Machine.Tables.{find-update_miss, find-delete_cases}
use gogolook_task_api.Queue.Machine.Reached.{finish-table, heartbeat_row-id, Reach-IsSoundTable}

abbrev pub is_ended : State → Bool
is_ended succeeded = true
is_ended cancelled = true
is_ended discarded = true
is_ended _ = false

-- A step keeps the row, or deletes it.
abbrev Stays : ℕ → Row → Table → Type 0
Stays i r u = (find i u ≡ some r) ⊎ (find i u ≡ none)

module _ (i : ℕ) (r : Row) (t : Table) (e : find i t ≡ some r)
    (over : is_ended r.state ≡ true) where
  complete-Stays :
      (now : ℕ) (w : String) (j : Job) (c : Completion) → Stays i r (complete now w j c t).0
  unfolding guarded
  complete-Stays now w j c = rw (complete-guarded now w j c t) (
      inl (
        find-update_miss (guard w j) (completed_row now w c) i t r (completed_row-id now w c) e
          (unfold guard in ground arith)))

  not_held : (w : String) (ids : List ℕ) → holds w ids r ≡ false
  unfolding holds
  not_held w ids = ground arith

  beats-Stays :
      (now : ℕ) (w : String) (ids : List ℕ) (lease : ℕ) → Stays i r (heartbeat now w ids lease t).0
  unfolding heartbeat
  beats-Stays now w [] lease = inl e
  beats-Stays now w (k ∷ ids) lease =
      inl (
        find-update_miss _ _ i t r (heartbeat_row-id now (interval lease)) e (not_held w (k ∷ ids)))

  releases-Stays : (w : String) (ids : List ℕ) → Stays i r (release w ids t).0
  unfolding release
  releases-Stays w [] = inl e
  releases-Stays w (k ∷ ids) =
      inl (find-update_miss _ _ i t r release_row-id e (not_held w (k ∷ ids)))

  claims-Stays :
      (now : ℕ) (w : String) (batch lease : ℕ) (locked : List ℕ)
      → Distinct t
      → Stays i r (claim now w batch lease locked t).0
  unfolding claimable
  claims-Stays now w batch lease locked d = elim (claim-find now w batch lease locked t i r d e) [
    | inl (moved, free) ↦ ground arith
    | inr kept ↦ inl kept
  ]

Step-ended :
    {t u : Table} (i : ℕ) (r : Row)
    → Step t u
    → Distinct t
    → find i t ≡ some r
    → is_ended r.state ≡ true
    → Stays i r u
unfolding schedule reap purge
Step-ended {t} i r (enqueues refused now id j fresh) d e over =
    elim (enqueue-cases refused now id j t) [
      | inl same ↦ inl (subst (λ v. find i v ≡ some r) (sym same) e)
      | inr new ↦
          inl
            (subst (λ v. find i v ≡ some r) (sym new.added) (ground (arith, fresh, e, new.has_id)))
    ]
Step-ended {t} i r (claims now w batch lease locked) d e over =
    claims-Stays i r t e over now w batch lease locked d
Step-ended {t} i r (beats now w ids lease) d e over = beats-Stays i r t e over now w ids lease
Step-ended {t} i r (finishes refused p now j cause read) d e over =
    finish-table refused p now j cause t (Stays i r) (inl e)
      λ c o f. complete-Stays i r t e over now p.worker_id j c
Step-ended {t} i r (releases w ids) d e over = releases-Stays i r t e over w ids
Step-ended {t} i r (reaps now delay ceiling) d e over = inl (
    find-update_miss (lapsed now) (reap_row now (interval delay) ceiling) i t r
      (reap_row-id now (interval delay) ceiling) e (unfold lapsed in ground arith))
Step-ended {t} i r (schedules now) d e over =
    inl
      (find-update_miss (due now) schedule_row i t r schedule_row-id e (unfold due in ground arith))
Step-ended {t} i r (purges now ks kd) d e over =
    find-delete_cases purge_batch (purgeable now (interval ks) (interval kd)) i t r d e

-- Once a job has succeeded, been cancelled or been discarded, no statement of any worker, sweeper
-- or producer changes its row: the next table has it as it was, or has purged it.
pub Reach-ended :
    {t u : Table} (i : ℕ) (r : Row)
    → Reach t
    → Step t u
    → find i t ≡ some r
    → is_ended r.state ≡ true
    → (find i u ≡ some r) ⊎ (find i u ≡ none)
Reach-ended i r reached s e over = Step-ended i r s (Reach-IsSoundTable reached).distinct e over

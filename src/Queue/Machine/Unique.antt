-- ===== src/Queue/Machine/Unique.antt =====
-- The unique index on live jobs' keys, which the insert of internal/outbox/outbox.go relies on,
-- under every statement of internal/queue.
use gogolook_task_api.Prelude.{
  ℕ, zero, suc, ◌≤◌, String, Bool, true, false, List, [], ◌∷◌, All, count, ◌≡◌, refl, sym, subst,
  ap, ◌∙◌, All-weaken, inl, inr, arith,
}
use gogolook_task_api.Prelude.Bytes.{bytes_eq_iff}
use gogolook_task_api.Prelude.Interval.{interval}
use gogolook_task_api.Queue.Job.{Row, Job}
use gogolook_task_api.Queue.Store.{
  Table, update_where, Completion, succeeds, retries, cancels, discards, snoozes, complete,
  completed_row, guard, guarded, holds, heartbeat, heartbeat_row, release, release_row, claim,
  claim_ids, claim_row, claimable, selected, ids_of, contains, succeed_row, retry_row, terminal_row,
  snooze_row,
}
use gogolook_task_api.Queue.Store.Guard.{Distinct, guard_iff}
use gogolook_task_api.Queue.Store.Held.{complete-guarded}
use gogolook_task_api.Queue.Store.Claims.{IsRowOf, Distinct-rows, taken-claimable}
use gogolook_task_api.Queue.Maintenance.{
  delete_first, lapsed, reap, reap_row, due, schedule, schedule_row, purge, purgeable, purge_batch,
}
use gogolook_task_api.Queue.Outbox.{
  OutboxJob, is_live, key_is, holds_key, key_or_null, is_taken, enqueue,
}
use gogolook_task_api.Queue.Machine.{
  Step, enqueues, claims, beats, finishes, releases, reaps, schedules, purges, Reach, start, next,
}
use gogolook_task_api.Queue.Machine.Inserts.{Inserted, enqueue-cases}
use gogolook_task_api.Queue.Machine.Reached.{Reach-IsSoundTable, finish-table, holds-running}

-- The row is a live job under its old key if it is one under its new.
abbrev IsNoNewer : (Row → Row) → Row → Type 0
IsNoNewer f r = (k : List ℕ) → holds_key k (f r) ≡ true → holds_key k r ≡ true

-- The update of a live job that leaves its key alone makes no job live.
live-IsNoNewer :
    (f : Row → Row) (r : Row)
    → (f r).unique_key ≡ r.unique_key
    → is_live r.state ≡ true
    → IsNoNewer f r
unfolding holds_key
live-IsNoNewer f r same live k h = ground (arith, ap (λ o. key_is o k) same)

count-update-le :
    (k : List ℕ) (p : Row → Bool) (f : Row → Row) (t : Table)
    → All (λ r. p r ≡ true → IsNoNewer f r) t
    → count (holds_key k) (update_where p f t) ≤ count (holds_key k) t
count-update-le k p f [] a = omega arith
count-update-le k p f (r ∷ t) a =
    ground (arith, count-update-le k p f t a.1, λ (h : p r ≡ true). a.0 h k)

count-delete-le : (q p : Row → Bool) (n : ℕ) (t : Table) → count q (delete_first n p t) ≤ count q t
unfolding delete_first
count-delete-le q p n [] = omega arith
count-delete-le q p zero (r ∷ t) = ground (arith, count-delete-le q p zero t)
count-delete-le q p (suc n) (r ∷ t) =
    ground (arith, count-delete-le q p n t, count-delete-le q p (suc n) t)

All-of : {P : Row → Type 0} → ((r : Row) → P r) → (t : Table) → All P t
All-of h [] = tt
All-of h (r ∷ t) = (h r, All-of h t)

-- What each statement does to a row that it selects.
completed_row-key :
    (now : ℕ) (w : String) (c : Completion) (r : Row)
    → (completed_row now w c r).unique_key ≡ r.unique_key
unfolding completed_row succeed_row retry_row terminal_row snooze_row
completed_row-key now w succeeds r = refl
completed_row-key now w (retries delay cause) r = refl
completed_row-key now w (cancels cause) r = refl
completed_row-key now w (discards cause) r = refl
completed_row-key now w (snoozes delay) r = refl

completed-IsNoNewer :
    (now : ℕ) (w : String) (j : Job) (c : Completion) (r : Row)
    → guard w j r ≡ true
    → IsNoNewer (completed_row now w c) r
completed-IsNoNewer now w j c r h =
    live-IsNoNewer (completed_row now w c) r (completed_row-key now w c r)
      (ground (arith, guard_iff w j r))

heartbeat-IsNoNewer :
    (now lease : ℕ) (w : String) (ids : List ℕ) (r : Row)
    → holds w ids r ≡ true
    → IsNoNewer (heartbeat_row now lease) r
unfolding heartbeat_row
heartbeat-IsNoNewer now lease w ids r h =
    live-IsNoNewer (heartbeat_row now lease) r refl (ground (arith, holds-running w ids r h))

release-IsNoNewer :
    (w : String) (ids : List ℕ) (r : Row) → holds w ids r ≡ true → IsNoNewer release_row r
unfolding release_row
release-IsNoNewer w ids r h =
    live-IsNoNewer release_row r refl (ground (arith, holds-running w ids r h))

reap-IsNoNewer :
    (now delay ceiling : ℕ) (r : Row)
    → lapsed now r ≡ true
    → IsNoNewer (reap_row now delay ceiling) r
unfolding reap_row lapsed
reap-IsNoNewer now delay ceiling r h =
    live-IsNoNewer (reap_row now delay ceiling) r refl (ground arith)

schedule-IsNoNewer : (now : ℕ) (r : Row) → due now r ≡ true → IsNoNewer schedule_row r
unfolding schedule_row due
schedule-IsNoNewer now r h = live-IsNoNewer schedule_row r refl (ground arith)

claim-IsNoNewer :
    (now lease : ℕ) (w : String) (locked : List ℕ) (r : Row)
    → claimable now locked r ≡ true
    → IsNoNewer (claim_row now w lease) r
unfolding claim_row claimable
claim-IsNoNewer now lease w locked r h =
    live-IsNoNewer (claim_row now w lease) r refl (ground arith)

-- At most one live job has a key.
abbrev pub IsUnique : Table → Type 0
IsUnique t = (k : List ℕ) → count (holds_key k) t ≤ 1

update-IsUnique :
    (p : Row → Bool) (f : Row → Row) (t : Table)
    → All (λ r. p r ≡ true → IsNoNewer f r) t
    → IsUnique t
    → IsUnique (update_where p f t)
update-IsUnique p f t a u k = omega (arith, count-update-le k p f t a, u k)

free-count :
    (j k : List ℕ) (t : Table)
    → key_is (key_or_null j) k ≡ true
    → is_taken j t ≡ false
    → count (holds_key k) t ≡ 0
unfolding is_taken
free-count [] k t h free = ground arith
free-count (c ∷ j) k t h free =
    subst (λ i. count (holds_key i) t ≡ 0) ((bytes_eq_iff (c ∷ j) k).0 h) (ground arith)

new_row-count :
    (k : List ℕ) (r : Row) (t : Table)
    → count (holds_key k) t ≤ 1
    → (key_is r.unique_key k ≡ true → count (holds_key k) t ≡ 0)
    → count (holds_key k) (r ∷ t) ≤ 1
unfolding holds_key
new_row-count k r t u free = ground arith

Inserted-IsUnique :
    (id : ℕ) (j : OutboxJob) (t v : Table) → Inserted id j t v → IsUnique t → IsUnique v
Inserted-IsUnique id j t v i u k =
    subst (λ x. count (holds_key k) x ≤ 1) (sym i.added)
      (new_row-count k i.row t (u k)
        λ h. free-count j.unique_key k t (ap (λ o. key_is o k) (sym i.has_key) ∙ h) i.free)

claim-IsUnique :
    (now : ℕ) (w : String) (batch lease : ℕ) (locked : List ℕ) (t : Table)
    → Distinct t
    → IsUnique t
    → IsUnique (claim now w batch lease locked t).0
unfolding claim claim_ids
claim-IsUnique now w batch lease locked t d u =
    update-IsUnique (λ r. contains (ids_of (selected now locked batch t)) r.id)
      (claim_row now w (interval lease)) t
      (All-weaken (IsRowOf t) _ t
        (λ r e hit.
          claim-IsNoNewer now (interval lease) w locked r
            (taken-claimable now w batch lease locked t r.id r d e hit))
        (Distinct-rows t d))
      u

beats-IsUnique :
    (now : ℕ) (w : String) (ids : List ℕ) (lease : ℕ) (t : Table)
    → IsUnique t
    → IsUnique (heartbeat now w ids lease t).0
unfolding heartbeat
beats-IsUnique now w [] lease t u = u
beats-IsUnique now w (i ∷ ids) lease t u =
    update-IsUnique (holds w (i ∷ ids)) (heartbeat_row now (interval lease)) t
      (All-of (heartbeat-IsNoNewer now (interval lease) w (i ∷ ids)) t) u

releases-IsUnique :
    (w : String) (ids : List ℕ) (t : Table) → IsUnique t → IsUnique (release w ids t).0
unfolding release
releases-IsUnique w [] t u = u
releases-IsUnique w (i ∷ ids) t u =
    update-IsUnique (holds w (i ∷ ids)) release_row t (All-of (release-IsNoNewer w (i ∷ ids)) t) u

complete-IsUnique :
    (now : ℕ) (w : String) (j : Job) (c : Completion) (t : Table)
    → IsUnique t
    → IsUnique (complete now w j c t).0
unfolding guarded
complete-IsUnique now w j c t u = rw (complete-guarded now w j c t) (
    update-IsUnique (guard w j) (completed_row now w c) t (All-of (completed-IsNoNewer now w j c) t)
      u)

Step-IsUnique : {t v : Table} → Step t v → Distinct t → IsUnique t → IsUnique v
unfolding schedule reap purge
Step-IsUnique {t} (enqueues refused now id j fresh) d u = elim (enqueue-cases refused now id j t) [
  | inl same ↦ subst IsUnique (sym same) u
  | inr i ↦ Inserted-IsUnique id j t (enqueue refused now id j t).0 i u
]
Step-IsUnique {t} (claims now w batch lease locked) d u =
    claim-IsUnique now w batch lease locked t d u
Step-IsUnique {t} (beats now w ids lease) d u = beats-IsUnique now w ids lease t u
Step-IsUnique {t} (finishes refused p now j cause read) d u =
    finish-table refused p now j cause t IsUnique u
      λ c o f. complete-IsUnique now p.worker_id j c t u
Step-IsUnique {t} (releases w ids) d u = releases-IsUnique w ids t u
Step-IsUnique {t} (reaps now delay ceiling) d u =
    update-IsUnique (lapsed now) (reap_row now (interval delay) ceiling) t
      (All-of (reap-IsNoNewer now (interval delay) ceiling) t) u
Step-IsUnique {t} (schedules now) d u =
    update-IsUnique (due now) schedule_row t (All-of (schedule-IsNoNewer now) t) u
Step-IsUnique {t} (purges now ks kd) d u = λ k. omega (
  arith,
  count-delete-le (holds_key k) (purgeable now (interval ks) (interval kd)) purge_batch t,
  u k,
)

-- Whatever statements are made in whatever order, no two live jobs have one key: the unique index,
-- which only the insert is checked against here, is violated by no UPDATE.
pub Reach-IsUnique : {t : Table} → Reach t → IsUnique t
Reach-IsUnique start = λ k. omega arith
Reach-IsUnique (next r s) = Step-IsUnique s (Reach-IsSoundTable r).distinct (Reach-IsUnique r)

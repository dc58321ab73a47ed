-- ===== src/Queue/Maintenance/Retention.antt =====
-- What the purger deletes, and a row that it never deletes.
use gogolook_task_api.Prelude.{
  ℕ, zero, suc, ◌+◌, ◌≤◌, ◌<◌, Bool, true, false, not, none, some, [], ◌∷◌, min, count, keep,
  length, ◌≡◌, refl, arith,
}
use gogolook_task_api.Prelude.Interval.{interval}
use gogolook_task_api.Queue.Job.{Row, discarded}
use gogolook_task_api.Queue.Store.{Table}
use gogolook_task_api.Queue.Store.Guard.{find, find-update}
use gogolook_task_api.Queue.Maintenance.Ids.{reap_row-id}
use gogolook_task_api.Queue.Maintenance.Sweeps.{
  lapsed, reap, reap_row, purgeable, purge, purge_batch, delete_first,
}

length-delete_first :
    (n : ℕ) (p : Row → Bool) (t : Table)
    → length (delete_first n p t) + min n (count p t) ≡ length t
unfolding delete_first
length-delete_first n p [] = omega arith
length-delete_first zero p (r ∷ t) = ground (arith, length-delete_first zero p t)
length-delete_first (suc n) p (r ∷ t) =
    ground (arith, length-delete_first n p t, length-delete_first (suc n) p t)

keep_always : (p : Row → Bool) (t : Table) → count p t ≡ 0 → keep (λ r. not (p r)) t ≡ t
keep_always p [] h = refl
keep_always p (r ∷ t) h = ground (arith, keep_always p t)

delete_first-keep :
    (n : ℕ) (p : Row → Bool) (t : Table)
    → count p t ≤ n
    → delete_first n p t ≡ keep (λ r. not (p r)) t
unfolding delete_first
delete_first-keep n p [] h = refl
delete_first-keep zero p (r ∷ t) h = ground (arith, delete_first-keep zero p t)
delete_first-keep (suc n) p (r ∷ t) h =
    ground (arith, delete_first-keep n p t, delete_first-keep (suc n) p t)

find-delete_first :
    (n : ℕ) (p : Row → Bool) (i : ℕ) (t : Table) (r : Row)
    → find i t ≡ some r
    → p r ≡ false
    → find i (delete_first n p t) ≡ some r
unfolding delete_first
find-delete_first n p i [] r e h = cc
find-delete_first zero p i (q ∷ t) r e h = ground (arith, find-delete_first zero p i t r)
find-delete_first (suc n) p i (q ∷ t) r e h =
    ground (arith, find-delete_first n p i t r, find-delete_first (suc n) p i t r)

-- A purge reports as many rows as it deletes, at most 10000.
pub purge_accounts :
    (now kept_succeeded kept_discarded : ℕ) (t : Table)
    → let (t', n) = purge now kept_succeeded kept_discarded t in
      (length t' + n ≡ length t) × (n ≤ purge_batch)
unfolding purge
purge_accounts now ks kd t =
    (length-delete_first purge_batch (purgeable now (interval ks) (interval kd)) t, omega arith)

-- Where no more rows than the batch are past their retention, a purge leaves exactly the others.
pub purge-keep :
    (now kept_succeeded kept_discarded : ℕ) (t : Table)
    → let p = purgeable now (interval kept_succeeded) (interval kept_discarded) in
      count p t ≤ purge_batch
      → (purge now kept_succeeded kept_discarded t).0 ≡ keep (λ r. not (p r)) t
unfolding purge
purge-keep now ks kd t h =
    delete_first-keep purge_batch (purgeable now (interval ks) (interval kd)) t h

-- A job whose lease lapses, whose attempts have reached the fleet's ceiling and not its own budget,
-- is discarded by the reaper without a finalized_at; no purge at any time and with any retention
-- then deletes its row.
pub reaped_at_ceiling_stays :
    (t : Table) (i : ℕ) (r : Row) (now delay ceiling later kept_succeeded kept_discarded : ℕ)
    → find i t ≡ some r
    → lapsed now r ≡ true
    → ceiling ≤ r.attempt
    → r.attempt < r.max_attempts
    → let q = reap_row now (interval delay) ceiling r in
      let t' = (reap now delay ceiling t).0 in
      (q.state ≡ discarded)
      × (q.finalized_at ≡ none)
      × (find i t' ≡ some q)
      × (find i (purge later kept_succeeded kept_discarded t').0 ≡ some q)
unfolding reap
reaped_at_ceiling_stays t i r now delay ceiling later ks kd e late full spare = (
  gone,
  unfinished,
  found,
  unfold purge in
      find-delete_first purge_batch (purgeable later (interval ks) (interval kd)) i
        (reap now delay ceiling t).0 (reap_row now (interval delay) ceiling r) found kept,
)
  where
    gone : (reap_row now (interval delay) ceiling r).state ≡ discarded
    gone = unfold reap_row in ground arith

    unfinished : (reap_row now (interval delay) ceiling r).finalized_at ≡ none
    unfinished = unfold reap_row in ground arith

    found : find i (reap now delay ceiling t).0 ≡ some (reap_row now (interval delay) ceiling r)
    found = ground (
      arith,
      find-update (lapsed now) (reap_row now (interval delay) ceiling) i t
          (reap_row-id now (interval delay) ceiling),
    )

    kept :
        purgeable later (interval ks) (interval kd) (reap_row now (interval delay) ceiling r)
        ≡ false
    kept = unfold purgeable in ground (arith, gone, unfinished)

-- ===== src/Queue/Machine/Rescue.antt =====
-- The reaper of internal/queue/maintenance.go reaches every job whose worker stopped.
use gogolook_task_api.Prelude.{
  ℕ, ◌+◌, ◌≤◌, Bool, true, ◌||◌, none, some, [], ◌∷◌, ◌==◌, count, All, ◌≡◌, ◌≢◌, subst, inl, inr,
  Bool-cases, Option-cases, arith,
}
use gogolook_task_api.Prelude.Interval.{interval}
use gogolook_task_api.Queue.Job.{Row, running, retryable, discarded}
use gogolook_task_api.Queue.Store.{Table}
use gogolook_task_api.Queue.Store.Guard.{find, find-update}
use gogolook_task_api.Queue.Maintenance.{lapsed, lapsed_to, reap, reap_row}
use gogolook_task_api.Queue.Maintenance.Ids.{reap_row-id}
use gogolook_task_api.Queue.Machine.{Reach}
use gogolook_task_api.Queue.Machine.Invariant.{IsSound}
use gogolook_task_api.Queue.Machine.Reached.{Reach-IsSoundTable}

pub find-IsSound : (i : ℕ) (t : Table) (r : Row) → All IsSound t → find i t ≡ some r → IsSound r
find-IsSound i [] r a h = cc
find-IsSound i (q ∷ t) r a h = elim (Bool-cases (q.id == i)) [
  | inl e ↦ subst IsSound (ground arith) a.0
  | inr e ↦ find-IsSound i t r a.1 (ground arith)
]

count-found :
    (p q : Row → Bool) (i : ℕ) (t : Table) (r : Row)
    → find i t ≡ some r
    → (p r || q r) ≡ true
    → 1 ≤ count p t + count q t
count-found p q i [] r e h = cc
count-found p q i (x ∷ t) r e h = ground (arith, count-found p q i t r)

module _ (now delay ceiling : ℕ) (r : Row) (late : lapsed now r ≡ true) where
  reaped_to :
      (lapsed_to now delay ceiling retryable r || lapsed_to now delay ceiling discarded r) ≡ true
  unfolding lapsed_to reap_row
  reaped_to = ground arith

  reaped_off :
      ((reap_row now delay ceiling r).state ≢ running)
      × ((reap_row now delay ceiling r).locked_by ≡ none)
  unfolding reap_row
  reaped_off = ground arith

lapsed-after :
    (l now : ℕ) (r : Row)
    → r.state ≡ running
    → r.lease_expires_at ≡ some l
    → lapsed (l + 1 + now) r ≡ true
unfolding lapsed
lapsed-after l now r is_running e = ground arith

leased_of :
    (i : ℕ) (t : Table) (r : Row)
    → All IsSound t
    → find i t ≡ some r
    → r.state ≡ running
    → (l : ℕ) × (r.lease_expires_at ≡ some l)
leased_of i t r rows e is_running = elim (Option-cases r.lease_expires_at) [
  | inl missing ↦ absurd (ground (arith, find-IsSound i t r rows e))
  | inr leased ↦ leased
]

-- No job is stuck in the running state: each one that runs in a reachable table has a lease, and
-- every reaping after its end takes the job off its worker and counts a job reclaimed.
pub Reach-reaped :
    {t : Table} (i : ℕ) (r : Row) (delay ceiling : ℕ)
    → Reach t
    → find i t ≡ some r
    → r.state ≡ running
    → (l : ℕ) × (r.lease_expires_at ≡ some l)
      × ((wait : ℕ)
          → let (t', again, gone) = reap (l + 1 + wait) delay ceiling t in
            (q : Row) × (find i t' ≡ some q)
            × (q.state ≢ running)
            × (q.locked_by ≡ none)
            × (1 ≤ again + gone))
unfolding reap
Reach-reaped {t} i r delay ceiling reached e is_running =
    let (l, leased) = leased_of i t r (Reach-IsSoundTable reached).rows e is_running in
    (
      l,
      leased,
      λ wait.
          let late = lapsed-after l wait r is_running leased in
          let now = l + 1 + wait in
          let (off, unlocked) = reaped_off now (interval delay) ceiling r late in
          (
            reap_row now (interval delay) ceiling r,
            ground (
              arith,
              late,
              find-update (lapsed now) (reap_row now (interval delay) ceiling) i t
                  (reap_row-id now (interval delay) ceiling),
            ),
            off,
            unlocked,
            count-found (lapsed_to now (interval delay) ceiling retryable)
                (lapsed_to now (interval delay) ceiling discarded) i t r e
                (reaped_to now (interval delay) ceiling r late),
          ),
    )

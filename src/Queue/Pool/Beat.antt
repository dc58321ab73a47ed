-- ===== src/Queue/Pool/Beat.antt =====
-- The heartbeat of internal/queue/pool.go where one lease of several was lost.
use gogolook_task_api.Prelude.{
  ℕ, ◌<◌, ◌≤◌, String, true, false, some, List, [], ◌∷◌, ◌++◌, ◌==◌, length, count, if◌then◌else◌,
  ◌≡◌, ◌≢◌, refl, inl, inr, Bool-cases, arith,
}
use gogolook_task_api.Queue.Job.{Row, running}
use gogolook_task_api.Queue.Store.{Table, contains, holds, heartbeat}
use gogolook_task_api.Queue.Store.Guard.{find, Distinct, is_worker_iff, state_eq_iff}
use gogolook_task_api.Queue.Store.Batch.{count-contains_le}
use gogolook_task_api.Queue.Pool.Decide.{Config}
use gogolook_task_api.Queue.Pool.Inflight.{System, tracked_ids, cancels_of, beat, beat_ids}

without : ℕ → List ℕ → List ℕ
without k [] = []
without k (i ∷ ids) = if i == k then without k ids else i ∷ without k ids

length-without_le : (k : ℕ) (ids : List ℕ) → length (without k ids) ≤ length ids
unfolding without
length-without_le k [] = omega arith
length-without_le k (i ∷ ids) = ground (arith, length-without_le k ids)

length-without_lt :
    (k : ℕ) (ids : List ℕ) → contains ids k ≡ true → length (without k ids) < length ids
unfolding without
length-without_lt k [] h = cc
length-without_lt k (i ∷ ids) h = ground (arith, length-without_lt k ids, length-without_le k ids)

contains-without : (k i : ℕ) (ids : List ℕ) → i ≢ k → contains (without k ids) i ≡ contains ids i
unfolding without
contains-without k i [] n = refl
contains-without k i (j ∷ ids) n = ground (arith, contains-without k i ids n)

-- The worker runs the row of an id.
abbrev pub Runs : String → ℕ → Table → Type 0
Runs w i t = (r : Row) × (find i t ≡ some r) × (r.state ≡ running) × (r.locked_by ≡ some w)

Runs-tail :
    (w : String) (k : ℕ) (r : Row) (t : Table)
    → Distinct (r ∷ t)
    → ¬ Runs w k (r ∷ t)
    → ¬ Runs w k t
Runs-tail w k r t d h (q, e, is_running, owner) = elim (Bool-cases (r.id == k)) [
  | inl same ↦ ground arith
  | inr other ↦ h (q, ground arith, is_running, owner)
]

holds-false :
    (w : String) (ids : List ℕ) (k : ℕ) (r : Row) (t : Table)
    → ¬ Runs w k (r ∷ t)
    → r.id ≡ k
    → holds w ids r ≡ false
unfolding holds
holds-false w ids k r t h e = elim (Bool-cases (holds w ids r)) [
  | inl held ↦ absurd (
      h (
        r,
        ground arith,
        ground (arith, state_eq_iff r.state running),
        ground (arith, is_worker_iff r.locked_by w),
      ))
  | inr not_held ↦ not_held
]

holds-contains :
    (w : String) (ids : List ℕ) (r : Row) → holds w ids r ≡ true → contains ids r.id ≡ true
unfolding holds
holds-contains w ids r h = ground arith

-- A row that is not run has no part in the count of the leases extended.
holds-le :
    (w : String) (ids : List ℕ) (k : ℕ) (t : Table)
    → Distinct t
    → ¬ Runs w k t
    → count (holds w ids) t ≤ count (λ r. contains (without k ids) r.id) t
holds-le w ids k [] d h = omega arith
holds-le w ids k (r ∷ t) d h = ground (
  arith,
  holds-le w ids k t d.1 (Runs-tail w k r t d h),
  holds-false w ids k r t h,
  holds-contains w ids r,
  contains-without k r.id ids,
)

heartbeat-short :
    (w : String) (ids : List ℕ) (k : ℕ) (t : Table)
    → Distinct t
    → ¬ Runs w k t
    → contains ids k ≡ true
    → count (holds w ids) t < length ids
heartbeat-short w ids k t d h c = omega (
  arith,
  holds-le w ids k t d h,
  count-contains_le (without k ids) t d,
  length-without_lt k ids c,
)

beat_ids-lost :
    (p : Config) (now : ℕ) (ids : List ℕ) (s : System) (k : ℕ)
    → Distinct s.table
    → contains ids k ≡ true
    → ¬ Runs p.worker_id k s.table
    → (beat_ids p now ids s).cancelled ≡ s.cancelled ++ cancels_of s.inflight
unfolding beat_ids heartbeat
beat_ids-lost p now [] s k d c h = cc
beat_ids-lost p now (i ∷ ids) s k d c h =
    ground (arith, heartbeat-short p.worker_id (i ∷ ids) k s.table d h c)

-- Where the worker no longer runs one of the jobs in flight, a heartbeat that reaches the database
-- calls the cancel function of every job in flight that has one, also of those whose leases it has
-- just extended.
pub beat_cancels_all :
    (p : Config) (now : ℕ) (s : System) (k : ℕ)
    → Distinct s.table
    → contains (tracked_ids s.inflight) k ≡ true
    → ¬ Runs p.worker_id k s.table
    → (beat p false now s).cancelled ≡ s.cancelled ++ cancels_of s.inflight
unfolding beat
beat_cancels_all p now s k d c h = by_ids (tracked_ids s.inflight) refl
  where
    by_ids :
        (ids : List ℕ)
        → tracked_ids s.inflight ≡ ids
        → (beat p false now s).cancelled ≡ s.cancelled ++ cancels_of s.inflight
    by_ids [] e = ground arith
    by_ids (i ∷ ids) e = rw (e, beat) (beat_ids-lost p now (i ∷ ids) s k d (rw e at c) h)

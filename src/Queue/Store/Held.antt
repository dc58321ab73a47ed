-- ===== src/Queue/Store/Held.antt =====
-- When a completion write lands, and what it does to the table.
use gogolook_task_api.Prelude.{
  ℕ, String, true, false, Option, none, some, [], ◌∷◌, count, ◌≡◌, ◌≢◌, ◌↔◌, refl, inl, inr,
  Option-cases, arith,
}
use gogolook_task_api.Queue.Job.{Row, Job, running}
use gogolook_task_api.Queue.Store.Rows.{
  Table, guard, guarded, succeed_row, retry_row, terminal_row, snooze_row,
}
use gogolook_task_api.Queue.Store.Completions.{
  Completion, succeeds, retries, cancels, discards, snoozes, complete, completed_row,
}
use gogolook_task_api.Queue.Store.Guard.{
  find, Distinct, guard_iff, count-guard, find-update, update-guard_none,
}

-- Every completion write goes through the guard.
pub complete-guarded :
    (now : ℕ) (w : String) (j : Job) (c : Completion) (t : Table)
    → complete now w j c t ≡ guarded (completed_row now w c) w j t
unfolding complete completed_row
complete-guarded now w j succeeds t = refl
complete-guarded now w j (retries delay cause) t = refl
complete-guarded now w j (cancels cause) t = refl
complete-guarded now w j (discards cause) t = refl
complete-guarded now w j (snoozes delay) t = refl

pub completed_row-id :
    (now : ℕ) (w : String) (c : Completion) (r : Row) → (completed_row now w c r).id ≡ r.id
unfolding completed_row succeed_row retry_row terminal_row snooze_row
completed_row-id now w succeeds r = refl
completed_row-id now w (retries delay cause) r = refl
completed_row-id now w (cancels cause) r = refl
completed_row-id now w (discards cause) r = refl
completed_row-id now w (snoozes delay) r = refl

-- A worker holds the claim that a job was taken under.
abbrev pub IsHeld : String → Job → Table → Type 0
IsHeld w j t =
    (r : Row) × (find j.id t ≡ some r)
    × (r.state ≡ running)
    × (r.locked_by ≡ some w)
    × (r.attempt ≡ j.attempt)

pub find-id : (i : ℕ) (t : Table) (r : Row) → find i t ≡ some r → r.id ≡ i
find-id i [] r h = cc
find-id i (q ∷ t) r h = ground (arith, find-id i t r)

guarded_held :
    (f : Row → Row) (w : String) (j : Job) (t : Table)
    → Distinct t
    → ((guarded f w j t).1 ≡ true) ↔ IsHeld w j t
unfolding guarded
guarded_held f w j t d = (forward, backward)
  where
    forward : (guarded f w j t).1 ≡ true → IsHeld w j t
    forward h = elim (Option-cases (find j.id t)) [
      | inl e ↦ absurd (ground (arith, count-guard w j t d))
      | inr (r, e) ↦ (
        r,
        e,
        ground (arith, count-guard w j t d, guard_iff w j r),
        ground (arith, count-guard w j t d, guard_iff w j r),
        ground (arith, count-guard w j t d, guard_iff w j r),
      )
    ]

    backward : IsHeld w j t → (guarded f w j t).1 ≡ true
    backward (r, e, is_running, locked, same) =
        ground (arith, count-guard w j t d, guard_iff w j r, find-id j.id t r e)

-- A completion write reports that the claim held exactly when the job's row is running, is locked
-- by this worker, and stands at the attempt that the job was claimed under.
pub complete_held_iff :
    (now : ℕ) (w : String) (j : Job) (c : Completion) (t : Table)
    → Distinct t
    → ((complete now w j c t).1 ≡ true) ↔ IsHeld w j t
complete_held_iff now w j c t d = rw (complete-guarded now w j c t) (guarded_held _ w j t d)

guarded_refused :
    (f : Row → Row) (w : String) (j : Job) (t : Table)
    → Distinct t
    → (guarded f w j t).1 ≡ false
    → (guarded f w j t).0 ≡ t
unfolding guarded
guarded_refused f w j t d h = update-guard_none f w j t (none_selected (find j.id t) refl)
  where
    none_selected : (o : Option Row) → find j.id t ≡ o → count (guard w j) t ≡ 0
    none_selected none e = ground (arith, count-guard w j t d)
    none_selected (some r) e = ground (arith, count-guard w j t d)

-- A refused write leaves the table as it was: a worker that lost its claim changes nothing.
pub complete_refused :
    (now : ℕ) (w : String) (j : Job) (c : Completion) (t : Table)
    → Distinct t
    → (complete now w j c t).1 ≡ false
    → (complete now w j c t).0 ≡ t
complete_refused now w j c t d =
    rw (complete-guarded now w j c t) (guarded_refused (completed_row now w c) w j t d)

guarded-find :
    (f : Row → Row) (w : String) (j : Job) (t : Table) (i : ℕ)
    → ((r : Row) → (f r).id ≡ r.id)
    → i ≢ j.id
    → find i (guarded f w j t).0 ≡ find i t
unfolding guarded guard
guarded-find f w j [] i h n = refl
guarded-find f w j (r ∷ t) i h n = ground (arith, h r, guarded-find f w j t i h n)

guarded-find_self :
    (f : Row → Row) (w : String) (j : Job) (t : Table) (r : Row)
    → ((r : Row) → (f r).id ≡ r.id)
    → Distinct t
    → find j.id t ≡ some r
    → (guarded f w j t).1 ≡ true
    → find j.id (guarded f w j t).0 ≡ some (f r)
unfolding guarded
guarded-find_self f w j t r h d e held =
    ground (arith, find-update (guard w j) f j.id t h, count-guard w j t d)

-- A write that lands changes the job's row alone, and in the way of its kind.
pub complete-find :
    (now : ℕ) (w : String) (j : Job) (c : Completion) (t : Table) (r : Row)
    → find j.id t ≡ some r
    → (complete now w j c t).1 ≡ true
    → Distinct t
    → (find j.id (complete now w j c t).0 ≡ some (completed_row now w c r))
      × ((i : ℕ) → i ≢ j.id → find i (complete now w j c t).0 ≡ find i t)
complete-find now w j c t r e held d = rw (complete-guarded now w j c t) (own, others)
  where
    own : find j.id (guarded (completed_row now w c) w j t).0 ≡ some (completed_row now w c r)
    own =
        guarded-find_self _ w j t r (completed_row-id now w c) d e
          (rw (complete-guarded now w j c t) at held)

    others : (i : ℕ) → i ≢ j.id → find i (guarded (completed_row now w c) w j t).0 ≡ find i t
    others i n = guarded-find _ w j t i (completed_row-id now w c) n

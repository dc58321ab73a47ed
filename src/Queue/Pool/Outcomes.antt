-- ===== src/Queue/Pool/Outcomes.antt =====
-- What `finish` of internal/queue/pool.go reports is what the table records.
use gogolook_task_api.Prelude.{
  ℕ, ◌<◌, ◌≤◌, String, Bool, true, false, Option, none, some, ◌≡◌, ◌≢◌, ◌⊎◌, refl, inl, inr,
  Bool-cases, arith, leb, ◌==◌, if◌then◌else◌,
}
use gogolook_task_api.Apperr.{Err}
use gogolook_task_api.Queue.Job.{
  Row, Job, State, Outcome, succeeded, retried, cancelled, discarded, snoozed, lost,
}
use gogolook_task_api.Queue.Backoff.{for_attempt}
use gogolook_task_api.Queue.Store.{
  Table, Completion, succeeds, retries, cancels, discards, snoozes, complete, completed_row,
  succeed_row, retry_row, terminal_row, snooze_row,
}
use gogolook_task_api.Queue.Store.Guard.{find, Distinct}
use gogolook_task_api.Queue.Store.Held.{complete-find, complete_refused, complete_held_iff, IsHeld}
use gogolook_task_api.Queue.Pool.Decide.{
  Config, as_snooze, write_error, max_attempts, retryable, write, write_failure, finish,
}

-- The state that a recorded outcome leaves a job in.
abbrev pub state_after : Outcome → State
state_after succeeded = State.succeeded
state_after retried = State.retryable
state_after cancelled = State.cancelled
state_after discarded = State.discarded
state_after snoozed = State.scheduled
state_after lost = State.running

-- Which write goes with which outcome, and on what grounds.
abbrev pub Fits : Config → Job → Option Err → Outcome → Completion → Type 0
Fits p j cause succeeded c = (c ≡ succeeds) × (cause ≡ none)
Fits p j cause retried c =
    (e : Err) × (cause ≡ some e)
    × (as_snooze e ≡ none)
    × (retryable e ≡ true)
    × (j.attempt < max_attempts p j)
    × (c ≡ retries (for_attempt p.backoff j.attempt) (some (p.error_text e)))
Fits p j cause cancelled c =
    (e : Err) × (cause ≡ some e)
    × (as_snooze e ≡ none)
    × (retryable e ≡ false)
    × (c ≡ cancels (some (p.error_text e)))
Fits p j cause discarded c =
    (e : Err) × (cause ≡ some e)
    × (as_snooze e ≡ none)
    × (retryable e ≡ true)
    × (max_attempts p j ≤ j.attempt)
    × (c ≡ discards (some (p.error_text e)))
Fits p j cause snoozed c =
    (e : Err) × (cause ≡ some e)
    × (d : ℕ) × (r : String) × (as_snooze e ≡ some (d, r))
    × (c ≡ snoozes d)
Fits p j cause lost c = ⊥

-- A write is one completion write, and the outcome that goes with it.
pub record Written (p : Config) (now : ℕ) (j : Job) (cause : Option Err) (t : Table) : Type 0 where
  pub outcome : Outcome
  pub completion : Completion
  pub fits : Fits p j cause outcome completion
  pub same :
      let done = complete now p.worker_id j completion t in
      write p now j cause t ≡ (outcome, done.0, done.1)

module _ (p : Config) (now : ℕ) (j : Job) (t : Table) where
  written_error : (e : Err) (s : Option (ℕ × String)) → as_snooze e ≡ s → Written p now j (some e) t
  unfolding write write_error write_failure complete
  written_error e (some (d, r)) h = record {
    outcome = snoozed;
    completion = snoozes d;
    fits = (e, refl, d, r, h, refl);
    same = rw (h, write_error) refl;
  }
  written_error e none h = elim (Bool-cases (retryable e)) [
    | inr poison ↦ record {
      outcome = cancelled;
      completion = cancels (some (p.error_text e));
      fits = (e, refl, h, poison, refl);
      same = ground arith;
    }
    | inl again ↦ elim (Bool-cases (leb (max_attempts p j) j.attempt)) [
      | inl spent ↦ record {
        outcome = discarded;
        completion = discards (some (p.error_text e));
        fits = (e, refl, h, again, ground arith, refl);
        same = ground arith;
      }
      | inr left ↦ record {
        outcome = retried;
        completion = retries (for_attempt p.backoff j.attempt) (some (p.error_text e));
        fits = (e, refl, h, again, ground arith, refl);
        same = ground arith;
      }
    ]
  ]

  pub written : (cause : Option Err) → Written p now j cause t
  unfolding write complete
  written none = record {
    outcome = succeeded;
    completion = succeeds;
    fits = (refl, refl);
    same = refl;
  }
  written (some e) = written_error e (as_snooze e) refl

Fits-row :
    (p : Config) (j : Job) (cause : Option Err) (o : Outcome) (c : Completion) (now : ℕ)
    (w : String) (r : Row)
    → Fits p j cause o c
    → let q = completed_row now w c r in
      (o ≢ lost) × (q.state ≡ state_after o) × (q.locked_by ≡ none)
unfolding completed_row succeed_row retry_row terminal_row snooze_row
Fits-row p j cause succeeded c now w r f = ground arith
Fits-row p j cause retried c now w r (e, _, _, _, _, f) = ground arith
Fits-row p j cause cancelled c now w r (e, _, _, _, f) = ground arith
Fits-row p j cause discarded c now w r (e, _, _, _, _, f) = ground arith
Fits-row p j cause snoozed c now w r (e, _, d, _, _, f) = ground arith
Fits-row p j cause lost c now w r f = absurd f

find-split :
    (i k : ℕ) (t : Table) (q o : Option Row)
    → find k t ≡ q
    → (i ≢ k → find i t ≡ o)
    → find i t ≡ (if i == k then q else o)
find-split i k t q o own other = elim (Bool-cases (i == k)) [
  | inl same ↦ ground arith
  | inr apart ↦ rw apart (other (ground arith))
]

module _ (p : Config) (now : ℕ) (j : Job) (cause : Option Err) (t : Table) (d : Distinct t) where
  pub finish_held :
      (r : Row)
      → IsHeld p.worker_id j t
      → find j.id t ≡ some r
      → let (o, t') = finish false p now j cause t in
        (c : Completion) × Fits p j cause o c
        × (let q = completed_row now p.worker_id c r in
            (o ≢ lost)
            × (find j.id t' ≡ some q)
            × (q.state ≡ state_after o)
            × (q.locked_by ≡ none)
            × ((i : ℕ) → find i t' ≡ (if i == j.id then some q else find i t)))
  unfolding finish
  finish_held r held e =
      let w = written p now j t cause in
      let lands = (complete_held_iff now p.worker_id j w.completion t d).1 held in
      let (own, others) = complete-find now p.worker_id j w.completion t r e lands d in
      let (kept, state, unlocked) =
        Fits-row p j cause w.outcome w.completion now p.worker_id r w.fits in
      rw (w.same, lands)
        (
          w.completion,
          w.fits,
          (kept, own, state, unlocked, λ i. find-split i j.id _ _ _ own (others i)),
        )

  -- Where the worker holds the job no longer, or the database refuses the statement, the outcome is
  -- lost and the table is as it was.
  pub finish_lost :
      (refused : Bool)
      → (refused ≡ true) ⊎ (¬ IsHeld p.worker_id j t)
      → finish refused p now j cause t ≡ (lost, t)
  unfolding finish
  finish_lost true h = refl
  finish_lost false (inl h) = cc
  finish_lost false (inr h) =
      let w = written p now j t cause in
      elim (Bool-cases (complete now p.worker_id j w.completion t).1) [
        | inl lands ↦ absurd (h ((complete_held_iff now p.worker_id j w.completion t d).0 lands))
        | inr missed ↦
            rw (w.same, missed, complete_refused now p.worker_id j w.completion t d missed)
      ]

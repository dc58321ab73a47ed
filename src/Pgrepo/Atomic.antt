-- ===== src/Pgrepo/Atomic.antt =====
-- Write of internal/task/pgrepo/pgrepo.go commits rows, event and notification together or nothing.
use gogolook_task_api.Prelude.{
  ℕ, Bool, true, ◌||◌, none, List, [], ◌∷◌, ◌++◌, ◌≡◌, refl, sym, subst, Bool-cases, inl, inr,
}
use gogolook_task_api.Task.{Task, Result, ok, err}
use gogolook_task_api.Queue.Store.{Table}
use gogolook_task_api.Queue.Outbox.{is_taken, enqueue}
use gogolook_task_api.Postgres.{Faults, Work, Session, fresh_work}
use gogolook_task_api.Pgrepo.Events.{EventCodec, event_for, event_id, event_job}
use gogolook_task_api.Pgrepo.Repo.{
  write, job_kind, enqueue_event, then_enqueue, finish_own, enqueued, after_own_commit, write_in,
}
use gogolook_task_api.Pgrepo.Enqueued.{Takes, event-Takes}

module _ (codec : EventCodec) (event : List ℕ) (fn : Work → Result Task × Work) where
  -- What `write` gives where it has a transaction of its own: an error with nothing changed, or
  -- what fn wrote, a live job of the event and the notification.
  abbrev pub IsOwnOutcome : Session → Result Task × Session → Type 0
  IsOwnOutcome s (err e, s') = s' ≡ s
  IsOwnOutcome s (ok t, s') =
      (w : Work) × (fn (fresh_work s.committed) ≡ (ok t, w))
      × (s'.ambient ≡ s.ambient)
      × (s'.committed.tasks ≡ w.db.tasks)
      × (s'.committed.keys ≡ w.db.keys)
      × (s'.committed.notified ≡ w.db.notified ++ job_kind ∷ [])
      × (is_taken (event_id codec (event_for event t)) s'.committed.jobs ≡ true)

  own_enqueued :
      (faults : Faults) (now : ℕ) (s : Session) (t : Task) (w : Work) (x : Table × Result Bool)
      → fn (fresh_work s.committed) ≡ (ok t, w)
      → Takes (faults.enqueue || w.is_aborted) (event_id codec (event_for event t)) x
      → IsOwnOutcome s (finish_own codec now faults (enqueued codec (event_for event t) t w x) s)
  unfolding finish_own enqueued after_own_commit
  own_enqueued faults now s t w (jobs, err e) h takes = refl
  own_enqueued faults now s t w (jobs, ok b) h takes =
      elim (Bool-cases (faults.commit || w.is_aborted)) [
        | inl refused ↦ rw refused refl
        | inr done ↦ rw done (w, h, refl, refl, refl, refl, (takes b refl).1)
      ]

  own_then :
      (now : ℕ) (faults : Faults) (s : Session) (x : Result Task × Work) (c : ℕ) (n : List ℕ)
      → event ≡ c ∷ n
      → fn (fresh_work s.committed) ≡ x
      → IsOwnOutcome s (finish_own codec now faults (then_enqueue codec now faults event x) s)
  unfolding finish_own then_enqueue enqueue_event event_for
  own_then now faults s (err e, w) c n named h = refl
  own_then now faults s (ok t, w) c n named h =
      own_enqueued faults now s t w
        (enqueue (faults.enqueue || w.is_aborted) now w.db.next_job
          (event_job codec (event_for event t)) w.db.jobs)
        h
        (event-Takes codec (faults.enqueue || w.is_aborted) now w.db.next_job (event_for event t)
          w.db.jobs c n named)

  write_in-outcome :
      (now : ℕ) (faults : Faults) (s : Session) (c : ℕ) (n : List ℕ)
      → event ≡ c ∷ n
      → IsOwnOutcome s (write_in codec now faults none event fn s)
  unfolding write_in
  write_in-outcome now faults s c n named = elim (Bool-cases faults.begin) [
    | inl refused ↦ rw refused refl
    | inr begun ↦ rw begun (own_then now faults s (fn (fresh_work s.committed)) c n named refl)
  ]

-- Whatever fails on the way, a write that is in no caller's transaction and whose event has a name
-- either answers an error and leaves the database as it was, or answers a task, and then what its
-- statement wrote is committed, a live job holds the id of the task's event, and the workers are
-- notified once, after that.
pub write-IsOwnOutcome :
    (codec : EventCodec) (now : ℕ) (faults : Faults) (c : ℕ) (n : List ℕ)
    (fn : Work → Result Task × Work) (s : Session)
    → s.ambient ≡ none
    → IsOwnOutcome codec (c ∷ n) fn s (write codec now faults (c ∷ n) fn s)
unfolding write
write-IsOwnOutcome codec now faults c n fn s alone =
    subst (λ a. IsOwnOutcome codec (c ∷ n) fn s (write_in codec now faults a (c ∷ n) fn s))
      (sym alone) (write_in-outcome codec (c ∷ n) fn now faults s c n refl)

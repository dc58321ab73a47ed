-- ===== src/Durable/Writes.antt =====
-- A keyed request whose handler makes one write of internal/task/pgrepo: the transaction that
-- internal/idempotency/postgres.go opens is the one that the repository joins.
use gogolook_task_api.Prelude.{ℕ, Bool, some, List, ◌≡◌, refl, sym, subst, ◌||◌}
use gogolook_task_api.Task.{Task, Result, ok, err}
use gogolook_task_api.Queue.Store.{Table}
use gogolook_task_api.Queue.Outbox.{enqueue}
use gogolook_task_api.Postgres.{Faults, Work, Session, after_commit}
use gogolook_task_api.Pgrepo.{
  EventCodec, Event, event_for, event_job, enqueued, enqueue_event, then_enqueue, finish_ambient,
  write, write_in,
}
use gogolook_task_api.Idempotency.{Call, Handler}
use gogolook_task_api.Durable.Outcome.{StaysInside}

abbrev pub KeepsKeys : (Work → Result Task × Work) → Type 0
KeepsKeys fn = (w : Work) → (fn w).1.db.keys ≡ w.db.keys

module _ (codec : EventCodec) (now : ℕ) (faults : Faults) (event : List ℕ)
    (fn : Work → Result Task × Work) (respond : Result Task → List Call) where
  -- Handlers of a write, as the repository's client calls it.
  abbrev pub writes : Handler Session
  writes r s = let (result, s') = write codec now faults event fn s in (some (respond result), s')

  abbrev IsInside : Session → Work → Result Task × Session → Type 0
  IsInside s w0 (a, s') =
      (s'.committed ≡ s.committed) × (w : Work) × (s'.ambient ≡ some w) × (w.db.keys ≡ w0.db.keys)

  enqueued-IsInside :
      (e : Event) (t : Task) (w w0 : Work) (s : Session) (x : Table × Result Bool)
      → w.db.keys ≡ w0.db.keys
      → IsInside s w0 (finish_ambient codec now faults (enqueued codec e t w x) s)
  unfolding enqueued finish_ambient after_commit
  enqueued-IsInside e t w w0 s (jobs, ok b) keys = (refl, _, refl, keys)
  enqueued-IsInside e t w w0 s (jobs, err u) keys = (refl, _, refl, keys)

  then-IsInside :
      (x : Result Task × Work) (w0 : Work) (s : Session)
      → x.1.db.keys ≡ w0.db.keys
      → IsInside s w0 (finish_ambient codec now faults (then_enqueue codec now faults event x) s)
  unfolding then_enqueue finish_ambient enqueue_event
  then-IsInside (err e, w) w0 s keys = (refl, w, refl, keys)
  then-IsInside (ok t, w) w0 s keys =
      enqueued-IsInside (event_for event t) t w w0 s
        (enqueue (faults.enqueue || w.is_aborted) now w.db.next_job
          (event_job codec (event_for event t)) w.db.jobs)
        keys

  pub writes-StaysInside : KeepsKeys fn → StaysInside writes
  unfolding write write_in
  writes-StaysInside keeps r s w0 inside =
      subst (λ a. IsInside s w0 (write_in codec now faults a event fn s)) (sym inside)
        (then-IsInside (fn w0) w0 s (keeps w0))

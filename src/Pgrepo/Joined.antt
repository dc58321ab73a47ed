-- ===== src/Pgrepo/Joined.antt =====
-- Write of internal/task/pgrepo/pgrepo.go in a transaction that its caller has opened.
use gogolook_task_api.Prelude.{
  ℕ, suc, Bool, true, false, ◌||◌, some, List, [], ◌∷◌, ◌++◌, ◌≡◌, refl, sym, subst, arith,
}
use gogolook_task_api.Task.{Task, Result, ok, err}
use gogolook_task_api.Queue.Store.{Table}
use gogolook_task_api.Queue.Outbox.{is_taken, enqueue}
use gogolook_task_api.Postgres.{Faults, Work, Session, after_commit}
use gogolook_task_api.Pgrepo.Events.{EventCodec, event_for, event_id, event_job}
use gogolook_task_api.Pgrepo.Repo.{
  write, job_kind, enqueue_event, then_enqueue, finish_ambient, enqueued, write_in,
}
use gogolook_task_api.Pgrepo.Enqueued.{Takes, event-Takes}

module _ (codec : EventCodec) (event : List ℕ) (fn : Work → Result Task × Work) where
  -- What `write` gives in the transaction w0 of a caller: nothing is committed; where it answers a
  -- task, what fn wrote and a live job of the event are in the transaction, which is left open,
  -- sound and with one notification more to send.
  abbrev pub IsJoinedOutcome : Session → Work → Result Task × Session → Type 0
  IsJoinedOutcome s w0 (err e, s') = s'.committed ≡ s.committed
  IsJoinedOutcome s w0 (ok t, s') =
      (w v : Work) × (fn w0 ≡ (ok t, w))
      × (s'.committed ≡ s.committed)
      × (s'.ambient ≡ some v)
      × (v.is_aborted ≡ false)
      × (v.db.tasks ≡ w.db.tasks)
      × (v.db.keys ≡ w.db.keys)
      × (v.db.notified ≡ w.db.notified)
      × (v.after ≡ w.after ++ job_kind ∷ [])
      × (is_taken (event_id codec (event_for event t)) v.db.jobs ≡ true)

  joined_enqueued :
      (faults : Faults) (now : ℕ) (s : Session) (t : Task) (w0 w : Work) (x : Table × Result Bool)
      → fn w0 ≡ (ok t, w)
      → Takes (faults.enqueue || w.is_aborted) (event_id codec (event_for event t)) x
      → IsJoinedOutcome s w0
          (finish_ambient codec now faults (enqueued codec (event_for event t) t w x) s)
  unfolding finish_ambient enqueued after_commit
  joined_enqueued faults now s t w0 w (jobs, err e) h takes = refl
  joined_enqueued faults now s t w0 w (jobs, ok b) h takes = (
    w,
    record w {
      db = record w.db { jobs = jobs; next_job = suc w.db.next_job };
      after = w.after ++ job_kind ∷ [];
    },
    h,
    refl,
    refl,
    (let sound = (takes b refl).0 in ground arith),
    refl,
    refl,
    refl,
    refl,
    (takes b refl).1,
  )

  joined_then :
      (now : ℕ) (faults : Faults) (s : Session) (w0 : Work) (x : Result Task × Work) (c : ℕ)
      (n : List ℕ)
      → event ≡ c ∷ n
      → fn w0 ≡ x
      → IsJoinedOutcome s w0
          (finish_ambient codec now faults (then_enqueue codec now faults event x) s)
  unfolding finish_ambient then_enqueue enqueue_event event_for
  joined_then now faults s w0 (err e, w) c n named h = refl
  joined_then now faults s w0 (ok t, w) c n named h =
      joined_enqueued faults now s t w0 w
        (enqueue (faults.enqueue || w.is_aborted) now w.db.next_job
          (event_job codec (event_for event t)) w.db.jobs)
        h
        (event-Takes codec (faults.enqueue || w.is_aborted) now w.db.next_job (event_for event t)
          w.db.jobs c n named)

-- A write in the transaction of its caller commits nothing and sends nothing, whatever fails. Where
-- it answers a task, what its statement wrote and a live job with the id of the task's event are in
-- that transaction, which is not aborted, and one notification is registered for its commit.
pub write-IsJoinedOutcome :
    (codec : EventCodec) (now : ℕ) (faults : Faults) (c : ℕ) (n : List ℕ)
    (fn : Work → Result Task × Work) (s : Session) (w0 : Work)
    → s.ambient ≡ some w0
    → IsJoinedOutcome codec (c ∷ n) fn s w0 (write codec now faults (c ∷ n) fn s)
unfolding write write_in
write-IsJoinedOutcome codec now faults c n fn s w0 joins =
    subst (λ a. IsJoinedOutcome codec (c ∷ n) fn s w0 (write_in codec now faults a (c ∷ n) fn s))
      (sym joins) (joined_then codec (c ∷ n) fn now faults s w0 (fn w0) c n refl refl)

-- ===== src/Pgrepo/Repo.antt =====
-- internal/task/pgrepo/pgrepo.go over sessions. The identity of the job and the clock of the
-- database are arguments; the observer is left out.
use gogolook_task_api.Prelude.{
  ℕ, suc, String, Bool, true, false, ◌&&◌, ◌||◌, Option, none, some, List, if◌then◌else◌, length,
  take, keep, ltb, ◌==◌,
}
use gogolook_task_api.Prelude.Int.{ℤ}
use gogolook_task_api.Prelude.Sort.{sort}
use gogolook_task_api.Apperr.{plain, wrapped}
use gogolook_task_api.Task.{
  Task, Result, ok, err, err_not_found, load, values, has_status, less, Store, ListQuery, Page,
  Cursor, zero_cursor, is_zero, last_cursor, cut,
}
use gogolook_task_api.Queue.Store.{Table}
use gogolook_task_api.Queue.Outbox.{enqueue}
use gogolook_task_api.Postgres.{
  Database, Faults, Work, Session, fresh_work, after_commit, notify, commit_work,
}
use gogolook_task_api.Pgrepo.Events.{
  EventCodec, Event, event_created, event_updated, event_deleted, event_for, event_job,
}
use gogolook_task_api.Pgrepo.Statements.{insert_task, update_row, delete_row, micro}

-- The kind of every job of this package.
abbrev pub job_kind : String
job_kind = "task.event"

-- A job that fails before its statement (no JSON) leaves the transaction sound.
abbrev pub has_payload : Option (List ℕ) → Bool
has_payload none = false
has_payload (some p) = true

-- The transaction after Enqueue: a failed statement aborts it.
unfoldable pub enqueued :
    EventCodec → Event → Task → Work → Table × Result Bool → Result Task × Work
enqueued codec e t w (jobs, ok inserted) =
    (ok t, record w { db = record w.db { jobs = jobs; next_job = suc w.db.next_job } })
enqueued codec e t w (jobs, err refusal) =
    (err refusal, record w { is_aborted = w.is_aborted || has_payload (codec.marshal e) })

-- The end of `write` in a transaction of its own: an error rolls back, and the notification
-- follows the commit.
unfoldable pub after_own_commit : Task → Option Database → Session → Result Task × Session
after_own_commit t none s = (err (wrapped "commit" (plain "commit failed")), s)
after_own_commit t (some db) s = (ok t, record s { committed = notify job_kind db })

-- `Delete` drops the task.
abbrev pub forget : Result Task → Result (Unit {0})
forget (ok t) = ok tt
forget (err e) = err e

module _ (codec : EventCodec) (now : ℕ) (faults : Faults) where
  unfoldable pub enqueue_event : Event → Task → Work → Result Task × Work
  unfolding event_job enqueued
  enqueue_event e t w =
      enqueued codec e t w
        (enqueue (faults.enqueue || w.is_aborted) now w.db.next_job (event_job codec e) w.db.jobs)

  unfoldable pub then_enqueue : List ℕ → Result Task × Work → Result Task × Work
  unfolding enqueue_event event_for
  then_enqueue event (err e, w) = (err e, w)
  then_enqueue event (ok t, w) = enqueue_event (event_for event t) t w

  unfoldable pub finish_own : Result Task × Work → Session → Result Task × Session
  unfolding after_own_commit
  finish_own (err e, w) s = (err e, s)
  finish_own (ok t, w) s = after_own_commit t (commit_work faults.commit w) s

  -- The end of `write` in the ambient transaction: the notification is registered.
  unfoldable pub finish_ambient : Result Task × Work → Session → Result Task × Session
  unfolding after_commit
  finish_ambient (err e, w) s = (err e, record s { ambient = some w })
  finish_ambient (ok t, w) s = (ok t, (after_commit job_kind (record s { ambient = some w })).1)

  unfoldable pub write_in :
      Option Work → List ℕ → (Work → Result Task × Work) → Session → Result Task × Session
  unfolding finish_own finish_ambient then_enqueue
  write_in (some w) event fn s = finish_ambient (then_enqueue event (fn w)) s
  write_in none event fn s =
      if faults.begin
      then (err (wrapped "begin" (plain "begin failed")), s)
      else finish_own (then_enqueue event (fn (fresh_work s.committed))) s

  -- `write`, with `begin`.
  unfoldable pub write : List ℕ → (Work → Result Task × Work) → Session → Result Task × Session
  unfolding write_in
  write event fn s = write_in s.ambient event fn s

  unfoldable pub create : Task → Session → Result Task × Session
  unfolding write insert_task event_created
  create t s = write event_created (insert_task faults.statement t) s

  unfoldable pub update : (miss_refused : Bool) → Task → ℤ → Session → Result Task × Session
  unfolding write update_row event_updated
  update miss_refused t expected s =
      write event_updated (update_row faults.statement miss_refused t expected) s

  unfoldable pub delete : ℕ → Session → Result (Unit {0}) × Session
  unfolding write delete_row event_deleted
  delete i s = let (r, s') = write event_deleted (delete_row faults.statement i) s in (forget r, s')

-- `Get` and `List` read what is committed: they ask the pool, not the ambient transaction.
unfoldable pub row_or_missing : Option Task → Result Task
row_or_missing none = err err_not_found
row_or_missing (some t) = ok t

unfoldable pub get : Bool → ℕ → Session → Result Task × Session
unfolding row_or_missing
get refused i s =
    if refused
    then (err (wrapped "get task" (plain "statement failed")), s)
    else (row_or_missing (load i s.committed.tasks), s)

-- The keyset predicate `(created_at, id) < ($2, $3)`, on rows: true where the cursor is NULL.
unfoldable pub is_behind : Cursor → Task → Bool
unfolding is_zero
is_behind c t =
    is_zero c
    || (ltb t.created_at (micro c.created_at)
        || (t.created_at == micro c.created_at && ltb t.id c.id))

-- The SELECT of `List`, with its ORDER BY and LIMIT.
unfoldable pub select_page : ListQuery → Store → List Task
unfolding is_behind less sort
select_page q s =
    take (suc q.limit)
      (sort (less (λ i. i)) (keep (λ t. has_status q.status t && is_behind q.cursor t) (values s)))

-- The page of the rows: the one past the limit only tells that there is more.
unfoldable pub page_of : List Task → ℕ → Option Page
unfolding cut last_cursor
page_of ts limit =
    if ltb limit (length ts)
    then cut (take limit ts) (last_cursor (take limit ts))
    else some (record { tasks = ts; next = zero_cursor })

unfoldable pub list : Bool → ListQuery → Session → Result (Option Page)
unfolding select_page page_of
list refused q s =
    if refused
    then err (wrapped "list tasks" (plain "statement failed"))
    else ok (page_of (select_page q s.committed.tasks) q.limit)

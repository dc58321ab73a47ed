-- ===== src/Pgrepo/Agrees.antt =====
-- The writes of internal/task/pgrepo/pgrepo.go beside those of internal/task/memrepo/memrepo.go,
-- where nothing fails on the way.
use gogolook_task_api.Prelude.{
  ℕ, String, Bool, true, false, not, ◌||◌, Option, none, some, List, ◌≡◌, refl, ap, ◌∙◌, sym, subst,
  arith, Bool-cases, inl, inr,
}
use gogolook_task_api.Prelude.Int.{ℤ, pos, int_eq}
use gogolook_task_api.Task.{Task, Result, ok, err, Store, load}
use gogolook_task_api.Task.{
  create as mem_create, update as mem_update, delete as mem_delete, create_over, update_over,
  updated, delete_over,
}
use gogolook_task_api.Queue.Store.{Table}
use gogolook_task_api.Queue.Outbox.{is_taken, insert_job, enqueue_payload, enqueue}
use gogolook_task_api.Postgres.{Faults, Work, Session, fresh_work}
use gogolook_task_api.Pgrepo.Events.{
  EventCodec, Event, event_for, event_job, event_created, event_updated, event_deleted,
}
use gogolook_task_api.Pgrepo.Statements.{
  micro, passes_checks, insert_task, update_row, update_found, delete_row, delete_found,
  is_last_version, matches_version, is_held,
}
use gogolook_task_api.Pgrepo.Repo.{
  write, write_in, create, update, delete, then_enqueue, enqueue_event, enqueued, forget,
  finish_own, after_own_commit,
}

abbrev pub no_faults : Faults
no_faults = record { begin = false; statement = false; enqueue = false; commit = false }

-- Every event has its JSON text.
abbrev pub IsMarshalled : EventCodec → Type 0
IsMarshalled codec = (e : Event) → (p : List ℕ) × (codec.marshal e ≡ some p)

-- An answer and the tasks behind it.
abbrev pub tasks_of {ℓ} : {A : Type ℓ} → Result A × Session → Result A × Store
tasks_of (r, s) = (r, s.committed.tasks)

abbrev pub tasks_in : Result Task × Work → Result Task × Store
tasks_in (r, w) = (r, w.db.tasks)

insert_job-ok :
    (now id : ℕ) (kind : String) (p key : List ℕ) (t : Table)
    → (b : Bool) × ((insert_job false now id kind p key (pos 0) t).1 ≡ ok b)
unfolding insert_job
insert_job-ok now id kind p key t = elim (Bool-cases (is_taken key t)) [
  | inl taken ↦ (false, rw taken refl)
  | inr free ↦ (true, rw free refl)
]

event-ok :
    (codec : EventCodec) (now id : ℕ) (e : Event) (t : Table)
    → IsMarshalled codec
    → (b : Bool) × ((enqueue false now id (event_job codec e) t).1 ≡ ok b)
unfolding enqueue enqueue_payload event_job
event-ok codec now id e t has =
    rw (has e).1 (insert_job-ok now id "task.event" (has e).0 (event_job codec e).unique_key t)

-- What a statement leaves of the tasks on an error is what was there; it aborts nothing it answers.
abbrev IsClean : Session → Result Task × Work → Type 0
IsClean s (err e, w) = w.db.tasks ≡ s.committed.tasks
IsClean s (ok t, w) = w.is_aborted ≡ false

enqueued-tasks :
    (codec : EventCodec) (now : ℕ) (e : Event) (t : Task) (w : Work) (x : Table × Result Bool)
    (b : Bool) (s : Session)
    → x.1 ≡ ok b
    → w.is_aborted ≡ false
    → tasks_of (finish_own codec now no_faults (enqueued codec e t w x) s) ≡ (ok t, w.db.tasks)
unfolding enqueued finish_own after_own_commit
enqueued-tasks codec now e t w (jobs, err u) b s h sound = ground arith
enqueued-tasks codec now e t w (jobs, ok c) b s h sound = rw sound refl

then-tasks :
    (codec : EventCodec) (now : ℕ) (event : List ℕ) (s : Session) (x : Result Task × Work)
    → IsMarshalled codec
    → IsClean s x
    → tasks_of (finish_own codec now no_faults (then_enqueue codec now no_faults event x) s)
      ≡ tasks_in x
unfolding then_enqueue finish_own enqueue_event
then-tasks codec now event s (err e, w) has clean = ap (λ m. (err e, m)) (sym clean)
then-tasks codec now event s (ok t, w) has clean =
    let job = event-ok codec now w.db.next_job (event_for event t) w.db.jobs has in
    subst
      (λ refused.
        tasks_of (
          finish_own codec now no_faults
            (enqueued codec (event_for event t) t w
              (enqueue refused now w.db.next_job (event_job codec (event_for event t)) w.db.jobs))
            s)
        ≡ (ok t, w.db.tasks))
      (sym clean)
      (enqueued-tasks codec now (event_for event t) t w
        (enqueue false now w.db.next_job (event_job codec (event_for event t)) w.db.jobs) job.0 s
        job.1 clean)

-- A write whose statement is clean answers and stores what the statement does.
write-tasks :
    (codec : EventCodec) (now : ℕ) (event : List ℕ) (fn : Work → Result Task × Work) (s : Session)
    → IsMarshalled codec
    → s.ambient ≡ none
    → IsClean s (fn (fresh_work s.committed))
    → tasks_of (write codec now no_faults event fn s) ≡ tasks_in (fn (fresh_work s.committed))
unfolding write write_in
write-tasks codec now event fn s has alone clean =
    subst
      (λ a.
        tasks_of (write_in codec now no_faults a event fn s)
        ≡ tasks_in (fn (fresh_work s.committed)))
      (sym alone) (then-tasks codec now event s (fn (fresh_work s.committed)) has clean)

-- Tasks that the columns keep as they are: whole microseconds, and the CHECKs pass.
pub record IsStorable (t : Task) : Type 0 where
  pub created : micro t.created_at ≡ t.created_at
  pub updated : micro t.updated_at ≡ t.updated_at
  pub checks : passes_checks t ≡ true

insert-IsClean : (t : Task) (s : Session) → IsClean s (insert_task false t (fresh_work s.committed))
unfolding insert_task
insert-IsClean t s =
    elim (Bool-cases (not (passes_checks t) || is_held (load t.id s.committed.tasks))) [
      | inl refused ↦ rw refused refl
      | inr sound ↦ rw sound refl
    ]

-- A task that the columns keep as it is and whose id no stored task has is created with the same
-- answer and the same tasks as by the in-memory repository.
pub create-memory :
    (codec : EventCodec) (now : ℕ) (t : Task) (s : Session)
    → IsMarshalled codec
    → s.ambient ≡ none
    → IsStorable t
    → load t.id s.committed.tasks ≡ none
    → tasks_of (create codec now no_faults t s) ≡ mem_create none t s.committed.tasks
unfolding create mem_create create_over
create-memory codec now t s has alone fits free =
    write-tasks codec now event_created (insert_task false t) s has alone (insert-IsClean t s)
    ∙ rw (free, fits.checks, fits.created, fits.updated) refl

update_found-IsClean :
    (o : Option Task) (t : Task) (expected : ℤ) (s : Session)
    → IsClean s (update_found false o t expected (fresh_work s.committed))
unfolding update_found
update_found-IsClean none t expected s = refl
update_found-IsClean (some old) t expected s = elim (Bool-cases (matches_version expected old)) [
  | inr missed ↦ rw missed refl
  | inl matched ↦ elim (Bool-cases (not (passes_checks t) || is_last_version old.version)) [
    | inl refused ↦ rw (matched, refused) refl
    | inr sound ↦ rw (matched, sound) refl
  ]
]

-- No stored task under the id is at the last version.
abbrev pub HasNextVersion : Option Task → Type 0
HasNextVersion none = Unit
HasNextVersion (some old) = is_last_version old.version ≡ false

update_found-memory :
    (o : Option Task) (t : Task) (expected : ℤ) (s : Session)
    → IsStorable t
    → HasNextVersion o
    → tasks_in (update_found false o t expected (fresh_work s.committed))
      ≡ update_over o t expected s.committed.tasks
unfolding update_found update_over updated
update_found-memory none t expected s fits next = refl
update_found-memory (some old) t expected s fits next =
    elim (Bool-cases (int_eq expected (pos 0))) [
      | inl any ↦ rw (any, fits.checks, next, fits.updated) refl
      | inr some_version ↦ elim (Bool-cases (int_eq old.version expected)) [
        | inl same ↦ rw (some_version, same, fits.checks, next, fits.updated) refl
        | inr moved ↦ rw (some_version, moved) refl
      ]
    ]

-- An update to a task that the columns keep as it is, of a stored task whose version is not the
-- largest one or of none, has the same answer (conflicts and missing tasks included) and leaves the
-- same tasks as by the in-memory repository.
pub update-memory :
    (codec : EventCodec) (now : ℕ) (t : Task) (expected : ℤ) (s : Session)
    → IsMarshalled codec
    → s.ambient ≡ none
    → IsStorable t
    → HasNextVersion (load t.id s.committed.tasks)
    → tasks_of (update codec now no_faults false t expected s)
      ≡ mem_update none t expected s.committed.tasks
unfolding update mem_update update_row
update-memory codec now t expected s has alone fits next =
    write-tasks codec now event_updated (update_row false false t expected) s has alone
      (update_found-IsClean (load t.id s.committed.tasks) t expected s)
    ∙ update_found-memory (load t.id s.committed.tasks) t expected s fits next

delete_found-IsClean :
    (o : Option Task) (i : ℕ) (s : Session) → IsClean s (delete_found o i (fresh_work s.committed))
unfolding delete_found
delete_found-IsClean none i s = refl
delete_found-IsClean (some t) i s = refl

abbrev forget_in : Result Task × Store → Result (Unit {0}) × Store
forget_in (r, m) = (forget r, m)

delete_found-memory :
    (o : Option Task) (i : ℕ) (s : Session)
    → forget_in (tasks_in (delete_found o i (fresh_work s.committed)))
      ≡ delete_over o i s.committed.tasks
unfolding delete_found delete_over
delete_found-memory none i s = refl
delete_found-memory (some t) i s = refl

-- A deletion has the same answer and leaves the same tasks as by the in-memory repository.
pub delete-memory :
    (codec : EventCodec) (now i : ℕ) (s : Session)
    → IsMarshalled codec
    → s.ambient ≡ none
    → tasks_of (delete codec now no_faults i s) ≡ mem_delete none i s.committed.tasks
unfolding delete mem_delete delete_row
delete-memory codec now i s has alone =
    ap forget_in (
      write-tasks codec now event_deleted (delete_row false i) s has alone
        (delete_found-IsClean (load i s.committed.tasks) i s))
    ∙ delete_found-memory (load i s.committed.tasks) i s

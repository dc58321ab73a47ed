-- ===== src/Durable/Examples.antt =====
-- The theorems on the keys of PostgreSQL at a request that creates a task, and tests of the
-- definitions.
use gogolook_task_api.Prelude.{
  ℕ, true, false, List, [], ◌∷◌, ◌≡◌, refl, inl, inr, not, ◌||◌, Bool-cases,
}
use gogolook_task_api.Prelude.Bytes.{find_key}
use gogolook_task_api.Task.{Task, Result, ok, err, load, is_valid_status}
use gogolook_task_api.Queue.Outbox.{enqueue, enqueue_payload, insert_job}
use gogolook_task_api.Postgres.{Session}
use gogolook_task_api.Pgrepo.{
  insert_task, write, write_in, then_enqueue, enqueue_event, enqueued, finish_ambient,
  passes_checks, is_held,
}
use gogolook_task_api.Pgrepo.Agrees.{no_faults}
use gogolook_task_api.Pgrepo.Samples.{task_of, names, session}
use gogolook_task_api.Idempotency.{
  Request, whole, Call, Recorder, writes_header, new_recorder, record_calls, record_call, flushed,
  Config, Handler, is_stored, handle, handle_body, reserved_answer, execute, after_handler,
  store_response, completed_answer,
}
use gogolook_task_api.Durable.Store.{
  durable_keys, reserve_key, reserve_row, complete_key, complete_open, complete_row,
  after_commit_of, abandon_key,
}
use gogolook_task_api.Durable.Outcome.{IsAllOrNothing, opened_work, StaysInside}
use gogolook_task_api.Durable.Commits.{print_of, handle-IsAllOrNothing}
use gogolook_task_api.Durable.Replays.{no_key_faults}
use gogolook_task_api.Durable.Finished.{AllCompleted, IsNot409, handle-AllCompleted}
use gogolook_task_api.Durable.Writes.{writes, writes-StaysInside, KeepsKeys}
use gogolook_task_api.Durable.Keyed.{RefusesErrors, IsKeyedWrite, handle-IsKeyedWrite}

abbrev config : Config
config = record { enabled = true; is_required = false; ttl = 100000; max_key_bytes = 255 }

abbrev no_digest : List ℕ → List ℕ
no_digest s = s

abbrev request : Request
request = record {
  method = 80 ∷ [];
  path = 47 ∷ [];
  key = 65 ∷ 66 ∷ [];
  accept_encoding = [];
  body = whole (1 ∷ []);
}

abbrev respond : Result Task → List Call
respond (ok t) = writes_header 201 ∷ []
respond (err e) = writes_header 500 ∷ []

abbrev created : Recorder
created = record_calls (writes_header 201 ∷ []) new_recorder

abbrev creates : Handler Session
creates = writes names 7 no_faults (101 ∷ []) (insert_task false (task_of 3)) respond

insert_task-KeepsKeys : KeepsKeys (insert_task false (task_of 3))
unfolding insert_task
insert_task-KeepsKeys w = elim (Bool-cases w.is_aborted) [
  | inl aborted ↦ rw aborted refl
  | inr sound ↦ elim (Bool-cases (not (passes_checks (task_of 3)) || is_held (load 3 w.db.tasks))) [
    | inl refused ↦ simp (sound, refused) refl
    | inr free ↦ simp (sound, free) refl
  ]
]

creates-StaysInside : StaysInside creates
creates-StaysInside =
    writes-StaysInside names 7 no_faults (101 ∷ []) (insert_task false (task_of 3)) respond
      insert_task-KeepsKeys

respond-RefusesErrors : RefusesErrors respond
unfolding is_stored record_calls record_call
respond-RefusesErrors e = refl

created-IsStored : is_stored created.status ≡ true
unfolding is_stored record_calls record_call
created-IsStored = refl

answered_created :
    (handle (durable_keys no_key_faults) creates no_digest config 10 11 request session).0
    ≡ flushed created
unfolding handle handle_body reserved_answer reserve_key reserve_row execute after_handler
    store_response completed_answer complete_key complete_open complete_row after_commit_of
    abandon_key durable_keys write write_in insert_task passes_checks then_enqueue enqueue_event
    enqueued finish_ambient enqueue enqueue_payload insert_job is_stored record_calls record_call
    find_key load is_valid_status
answered_created = refl

handle-IsAllOrNothing_example :
    IsAllOrNothing creates
      (65 ∷ 66 ∷ [])
      (print_of no_digest request request.body)
      111
      session
      request
      (handle (durable_keys no_key_faults) creates no_digest config 10 11 request session)
handle-IsAllOrNothing_example =
    handle-IsAllOrNothing no_key_faults creates no_digest config 10 11 request session
      creates-StaysInside refl

handle-AllCompleted_example :
    let (a, s') =
      handle (durable_keys no_key_faults) creates no_digest config 10 11 request session in
    AllCompleted s'.committed.keys × IsNot409 a
handle-AllCompleted_example =
    handle-AllCompleted no_key_faults creates no_digest config 10 11 request session
      creates-StaysInside refl tt

handle-IsKeyedWrite_example :
    IsKeyedWrite names
      (101 ∷ [])
      (insert_task false (task_of 3))
      (65 ∷ 66 ∷ [])
      (print_of no_digest request request.body)
      111
      created
      (opened_work creates (65 ∷ 66 ∷ []) (print_of no_digest request request.body) 111 session)
      session.committed
      (handle
        (durable_keys no_key_faults)
        creates
        no_digest
        config
        10
        11
        request
        session).1.committed
handle-IsKeyedWrite_example =
    handle-IsKeyedWrite names 7 no_faults 101 [] (insert_task false (task_of 3)) respond
      no_key_faults no_digest config 10 11 request session created respond-RefusesErrors
      insert_task-KeepsKeys refl answered_created created-IsStored

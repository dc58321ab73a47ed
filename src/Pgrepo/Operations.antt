-- ===== src/Pgrepo/Operations.antt =====
-- The writes of a task repository, run by internal/task/pgrepo/pgrepo.go and by
-- internal/task/memrepo/memrepo.go.
use gogolook_task_api.Prelude.{ℕ, false, none, ◌≡◌}
use gogolook_task_api.Prelude.Int.{ℤ}
use gogolook_task_api.Task.{
  Task, Result, Store, load, create as mem_create, update as mem_update, delete as mem_delete,
}
use gogolook_task_api.Postgres.{Session}
use gogolook_task_api.Pgrepo.Events.{EventCodec}
use gogolook_task_api.Pgrepo.Repo.{create, update, delete}
use gogolook_task_api.Pgrepo.Agrees.{
  no_faults, IsMarshalled, tasks_of, IsStorable, HasNextVersion, create-memory, update-memory,
  delete-memory,
}

pub data Operation : Type 0 where
  creates : Task → Operation
  updates : Task → (expected : ℤ) → Operation
  deletes : ℕ → Operation

abbrev pub Answer : Operation → Type 0
Answer (creates t) = Task
Answer (updates t expected) = Task
Answer (deletes i) = Unit {0}

abbrev pub run_durable : EventCodec → ℕ → (o : Operation) → Session → Result (Answer o) × Session
run_durable codec now (creates t) s = create codec now no_faults t s
run_durable codec now (updates t expected) s = update codec now no_faults false t expected s
run_durable codec now (deletes i) s = delete codec now no_faults i s

abbrev pub run_memory : (o : Operation) → Store → Result (Answer o) × Store
run_memory (creates t) m = mem_create none t m
run_memory (updates t expected) m = mem_update none t expected m
run_memory (deletes i) m = mem_delete none i m

-- The new tasks are ones that the columns keep as they are, a created one has a free id, and an
-- updated one is not at the last version.
abbrev pub IsFitting : Operation → Store → Type 0
IsFitting (creates t) m = IsStorable t × (load t.id m ≡ none)
IsFitting (updates t expected) m = IsStorable t × HasNextVersion (load t.id m)
IsFitting (deletes i) m = Unit

-- Where nothing fails on the way and there is no caller's transaction, a write of tasks that the
-- columns keep as they are (whole microseconds, a name and a status that pass the checks), with a
-- free id for a creation and no last version for an update, gives the same answer as the in-memory
-- repository, conflicts and missing tasks included, and leaves the same tasks.
pub run_durable-run_memory :
    (codec : EventCodec) (now : ℕ) (o : Operation) (s : Session)
    → IsMarshalled codec
    → s.ambient ≡ none
    → IsFitting o s.committed.tasks
    → tasks_of (run_durable codec now o s) ≡ run_memory o s.committed.tasks
run_durable-run_memory codec now (creates t) s has alone (fits, free) =
    create-memory codec now t s has alone fits free
run_durable-run_memory codec now (updates t expected) s has alone (fits, next) =
    update-memory codec now t expected s has alone fits next
run_durable-run_memory codec now (deletes i) s has alone fits =
    delete-memory codec now i s has alone

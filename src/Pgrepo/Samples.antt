-- ===== src/Pgrepo/Samples.antt =====
-- A small database, a codec and tasks for the instances of internal/task/pgrepo.
use gogolook_task_api.Prelude.{ℕ, none, some, [], ◌∷◌}
use gogolook_task_api.Prelude.Int.{pos}
use gogolook_task_api.Prelude.Decimal.{decimal}
use gogolook_task_api.Task.{Task, ListQuery, Store}
use gogolook_task_api.Postgres.{Database, Session, fresh_work}
use gogolook_task_api.Pgrepo.Events.{EventCodec, Event}

abbrev pub task_of : ℕ → Task
task_of i = record {
  id = i;
  name = 104 ∷ 105 ∷ [];
  status = pos 0;
  created_at = 3000;
  updated_at = 5000;
  version = pos 1;
}

abbrev pub sample_event : Event
sample_event = record {
  event = 101 ∷ [];
  task_id = 4;
  version = pos 1;
  name = [];
  status = pos 0;
  occurred_at = 5000;
}

-- The same change, with another status in its payload.
abbrev pub same_event : Event
same_event = record sample_event { status = pos 1 }

-- Texts that keep the event's name alone.
abbrev pub names : EventCodec
names = record {
  marshal = λ e. some e.event;
  unmarshal = λ p. some sample_event;
  id_text = decimal;
}

abbrev pub store : Store
store = (1, task_of 1) ∷ (2, task_of 2) ∷ []

abbrev pub database : Database
database = record { tasks = store; jobs = []; keys = []; next_job = 10; notified = [] }

abbrev pub session : Session
session = record { committed = database; ambient = none }

abbrev pub joined : Session
joined = record { committed = database; ambient = some (fresh_work database) }

abbrev pub newest : ListQuery
newest = record { status = none; limit = 1; cursor = record { created_at = 3000; id = 9 } }

-- ===== src/Pgrepo/Events.antt =====
-- internal/task/pgrepo/event.go. The texts of JSON and of UUIDs are other packages', given as a
-- parameter.
use gogolook_task_api.Prelude.{ℕ, suc, Option, List, ◌∷◌, ◌++◌, codes}
use gogolook_task_api.Prelude.Int.{ℤ, pos}
use gogolook_task_api.Prelude.Decimal.{decimal}
use gogolook_task_api.Task.{Task, Status}
use gogolook_task_api.Queue.Outbox.{OutboxJob}

pub record Event : Type 0 where
  pub event : List ℕ
  pub task_id : ℕ
  pub version : ℤ
  pub name : List ℕ
  pub status : Status
  pub occurred_at : ℕ

unfoldable pub event_created : List ℕ
unfolding codes
event_created = codes "task.created"

unfoldable pub event_updated : List ℕ
unfolding codes
event_updated = codes "task.updated"

unfoldable pub event_deleted : List ℕ
unfolding codes
event_deleted = codes "task.deleted"

-- `json.Marshal` and `json.Unmarshal` at `Event`, none where they fail, and `UUID.String`.
pub record EventCodec : Type 0 where
  pub marshal : Event → Option (List ℕ)
  pub unmarshal : List ℕ → Option Event
  pub id_text : ℕ → List ℕ

-- `eventFor`.
unfoldable pub event_for : List ℕ → Task → Event
event_for name t = record {
  event = name;
  task_id = t.id;
  version = t.version;
  name = t.name;
  status = t.status;
  occurred_at = t.updated_at;
}

-- `itoa`.
unfoldable pub itoa : ℤ → List ℕ
itoa (pos n) = decimal n
itoa (ℤ.negsuc n) = 45 ∷ decimal (suc n)

abbrev pub separator : ℕ
separator = 58

-- `Event.ID`.
unfoldable pub event_id : EventCodec → Event → List ℕ
unfolding itoa
event_id codec e = e.event ++ separator ∷ (codec.id_text e.task_id ++ separator ∷ itoa e.version)

-- The job that `write` hands to the outbox.
unfoldable pub event_job : EventCodec → Event → OutboxJob
unfolding event_id
event_job codec e = record {
  kind = "task.event";
  payload = codec.marshal e;
  unique_key = event_id codec e;
  max_attempts = pos 0;
}

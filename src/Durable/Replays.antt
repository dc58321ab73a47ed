-- ===== src/Durable/Replays.antt =====
-- What the keys of PostgreSQL answer to later requests: internal/idempotency/postgres.go.
use gogolook_task_api.Prelude.{false}
use gogolook_task_api.Durable.Store.{KeyFaults}

abbrev pub no_key_faults : KeyFaults
no_key_faults = record { begin = false; first = false; second = false; commit = false }

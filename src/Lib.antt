-- ===== src/Lib.antt =====
-- A verification library for the task API, a task-list service in Go with a job queue in PostgreSQL.
--
-- The program's parts and how they meet. `internal/task` is the domain: a service that validates
-- and hands on to a repository, which `internal/task/memrepo` implements in memory. In PostgreSQL
-- `internal/task/pgrepo` does, whose writes also enqueue a job by `internal/outbox`.
-- `internal/queue` works those jobs off: the pool claims a batch under a lease, runs the handlers,
-- beats the leases on and writes each outcome behind a guard on worker and attempt; the
-- maintenance reaps the jobs of dead workers, makes waiting jobs due and purges finished ones.
-- `internal/idempotency` stands before the handlers and answers a write that was sent before from
-- what it stored. `internal/apperr` classifies errors: the queue reads its verdict on retries, the
-- domain builds its errors by it. `internal/auth` names the caller of a request, and
-- `internal/ratelimit` counts what that caller may ask for. `internal/api` hands a request to the
-- task service and tells its client what an error is. `internal/config` validates the settings
-- that all of them are started with.
--
-- Files and code, with paths from the repository's root.
--   Prelude            tests on numbers, lists, texts, sorting, int64: shared by all.
--   Apperr             internal/apperr. Kinds is kind.go, Error is error.go over a tree of wrapped and
--                      joined errors; Classify and Chain hold the theorems.
--   Queue.Job          internal/queue/queue.go.
--   Queue.Store        internal/queue/store.go. Rows has the guarded writes (Succeed, Retry, Cancel,
--                      Discard, Snooze), Heartbeat and Release; Claiming has Claim; Completions names
--                      the five writes as one type.
--   Queue.Maintenance  internal/queue/maintenance.go (Reap, Schedule, Purge) and the sweep of
--                      internal/queue/service.go.
--   Queue.Backoff      internal/queue/backoff.go.
--   Queue.Pool         internal/queue/pool.go. Decide has maxAttempts, retryable, write, finish and
--                      invoke; Inflight has the pool's state with track, untrack, claimBatch, run, beat,
--                      releaseInflight and Stop; Loop has the inner loop of claimLoop.
--   Queue.Outbox       internal/outbox/outbox.go: Enqueue, with the unique index of the jobs table.
--   Queue.Machine      the statements as steps of the jobs table, in any order and by any worker.
--   Task               internal/task/task.go (Model), repository.go (Paging, Token), service.go
--                      (Service, Listing), memrepo/memrepo.go (Memory). Spec states what a repository
--                      promises, as a map from ids to tasks; Pages and Walk follow a client through
--                      the cursors.
--   Idempotency        internal/idempotency. Fingerprints is idempotency.go (Fingerprint, canonicalPath,
--                      CheckKey), Store is memory.go, Middleware is middleware.go and recorder.go
--                      over the interface of store.go; Framing, Once and Stale hold the theorems.
--   Postgres           internal/postgres/tx.go over a database of tasks, jobs and keys (Tables): the unit
--                      of work with its hooks (Tx). A session is what is committed and the transaction
--                      that the context carries.
--   Pgrepo             internal/task/pgrepo. Events is event.go, Statements the SQL of each operation,
--                      Repo the operations and write; Atomic and Joined say what a write leaves in a
--                      transaction of its own and in its caller's, Operations and Pages compare the
--                      repository with the one in memory, Identity is on the events' ids.
--   Durable            internal/idempotency/postgres.go as a second instance of the store that the
--                      middleware is over; Commits, Replays and Finished are on keyed requests, Writes
--                      on one whose handler makes a write of internal/task/pgrepo.
--   Webhook            internal/queue/handler/webhook.go (Delivery), and what the pool makes of its
--                      errors (Outcomes, Refusals).
--   Auth               internal/auth/auth.go. Address is ClientIP, Resolving is NewResolver, bearerToken and
--                      Resolve; Middleware is middleware.go.
--   Ratelimit          internal/ratelimit. Limiter is limiter.go (Allow, Sweep), Middleware is middleware.go,
--                      Inflight is inflight.go with the requests that the next handler is running;
--                      Traffic has a limiter's requests and sweeps in a row.
--   Api                internal/api. Errors is errors.go, Server is server.go and convert.go.
--   Config             internal/config: Values (duration.go), Checks (problems.go), the sections with their
--                      defaults and validations by subject, Whole (config.go); Started says what a
--                      validated configuration gives the queue and the resolver. Reload is reload.go.
--   Logging            internal/logging/throttle.go (Throttle).
-- The witnesses stand in the modules called Examples.
--
-- Conventions. A statement is a function of the table, with now() as an argument; a jobs table is
-- the list of its rows, and a statement is atomic, as a row-locking UPDATE is. The rows that SKIP
-- LOCKED passes over are an argument; a statement that the database refuses is a Bool. Instants and
-- durations are natural numbers. A duration is in nanoseconds, and so is an instant, but for those
-- of a job's or a key's row and the now() of their statements, which are in microseconds. The
-- operations of the queue's and the keys' stores take durations, and their statements the interval
-- of whole microseconds that pgx makes of one (`interval` of Prelude.Interval). A priority is
-- shifted to start at 0; the durations of the settings are int64 as they are read. The attempt of a
-- snoozed or released job goes down by one and here stops at 0, which no running job of a reachable
-- table is at. An error is a tree of what the code and its libraries build; an error's text is
-- bytes by a parameter. The random draw of the backoff is a parameter that draws no more than it is
-- given; its float64 arithmetic is exact below 2^53. A task's id is a number, and `rank` the place
-- of its text among the texts; a name is a list of code points; a version is an int64, whose
-- successor wraps. The cursor's base64, RFC 3339 and UUID texts are a parameter with their
-- documented round trips. SHA-256 is any function; an HTTP handler is a function from a request to
-- its calls on the writer, `none` a panic.
--
-- Bounds and fuel. The claim loop of Queue.Pool.Loop is on fuel, and more than the available rows
-- is enough. Every other loop of the code is structural here. The client of Task.Pages asks for as
-- many pages as it has fuel, and a number of rounds no less than the tasks is enough. A purge
-- deletes 10000 rows at most, an error's text keeps 1024 bytes, a page has at most 100 tasks, the
-- throttle of the log keeps 512 keys.
--
-- Not modelled: goroutines, tickers and channels of the pool (their turns are arguments), the
-- advisory lock that elects a leader (a Bool), logging but its throttle, tracing and metrics, the
-- column created_at of a job, the listener; transactions of others between the statements of one
-- (each commits before or after it); the chain of internal/resilience and the endpoint of a
-- webhook, which are parameters; internal/runtime, the loading of internal/config, internal/app,
-- internal/cli, internal/httpx, and of internal/postgres the pool and the migrations.
pub mod Prelude
pub mod Apperr
pub mod Queue
pub mod Task
pub mod Api
pub mod Auth
pub mod Config
pub mod Durable
pub mod Idempotency
pub mod Logging
pub mod Pgrepo
pub mod Postgres
pub mod Ratelimit
pub mod Webhook

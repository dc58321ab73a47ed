-- ===== src/Queue.antt =====
-- internal/queue: the job queue over one table. `Job` has the data, `Store` and `Maintenance` the
-- statements, `Backoff` and `Pool` what a worker does with a job, `Zombie` a worker that comes back
-- too late, `Machine` every interleaving of the statements.
pub mod Job
pub mod Store
pub mod Maintenance
pub mod Outbox
pub mod Zombie
pub mod Backoff
pub mod Pool
pub mod Machine
pub mod Samples
mod Examples

-- ===== src/Queue/Pool/Fate.antt =====
-- Which jobs internal/queue/pool.go gives up, and when the reaper of internal/queue/maintenance.go
-- gives up a job.
use Prim.Native.String
use gogolook_task_api.Prelude.{
  ℕ, ◌<◌, String, lookup, true, false, none, some, leb, if◌then◌else◌, ◌≡◌, ◌↔◌, refl, ◌∙◌, arith,
}
use gogolook_task_api.Apperr.{
  Err, plain, is_sentinel, as_classified, kind_of, standard_kind, kind_retryable,
}
use gogolook_task_api.Apperr
use gogolook_task_api.Queue.Job.{
  Row, Job, Outcome, succeeded, retried, cancelled, discarded, snoozed, lost, is_terminal, terminal,
}
use gogolook_task_api.Queue.Job
use gogolook_task_api.Queue.Store.{Table, Completion}
use gogolook_task_api.Queue.Store.Guard.{Distinct, find}
use gogolook_task_api.Queue.Store.Held.{IsHeld}
use gogolook_task_api.Queue.Maintenance.{reap_row}
use gogolook_task_api.Queue.Pool.Decide.{
  Config, Handled, Handlers, panics, as_snooze, max_attempts, retryable, finish, invoke,
  invoke_with,
}
use gogolook_task_api.Queue.Pool.Outcomes.{finish_held, Fits}

-- The outcome of a failure that is no snooze.
abbrev outcome_of : Config → Job → Err → Outcome
outcome_of p j e =
    if retryable e
    then (if leb (max_attempts p j) j.attempt then discarded else retried)
    else cancelled

Fits-outcome :
    (p : Config) (j : Job) (e : Err) (o : Outcome) (c : Completion)
    → as_snooze e ≡ none
    → Fits p j (some e) o c
    → o ≡ outcome_of p j e
Fits-outcome p j e succeeded c a f = ground arith
Fits-outcome p j e retried c a (e', same, _, again, left, _) = ground arith
Fits-outcome p j e cancelled c a (e', same, _, poison, _) = ground arith
Fits-outcome p j e discarded c a (e', same, _, again, spent, _) = ground arith
Fits-outcome p j e snoozed c a (e', same, n, r, asleep, _) = ground arith
Fits-outcome p j e lost c a f = absurd f

finish_failure :
    (p : Config) (now : ℕ) (j : Job) (e : Err) (t : Table)
    → Distinct t
    → IsHeld p.worker_id j t
    → as_snooze e ≡ none
    → (finish false p now j (some e) t).0 ≡ outcome_of p j e
finish_failure p now j e t d held awake =
    let (c, f, _) = finish_held p now j (some e) t d held.0 held held.1 in
    Fits-outcome p j e (finish false p now j (some e) t).0 c awake f

unhandled : Job → Err
unhandled j = terminal (some (plain (String.◌++◌ "no handler for kind " j.kind)))

panicked : String → Err
panicked v = plain (String.◌++◌ "handler panicked: " v)

outcome_of-unhandled :
    (p : Config) (j : Job)
    → (as_snooze (unhandled j) ≡ none) × (outcome_of p j (unhandled j) ≡ cancelled)
unfolding unhandled terminal retryable is_terminal as_snooze
outcome_of-unhandled p j = (refl, refl)

outcome_of-panicked :
    (p : Config) (j : Job) (v : String)
    → (as_snooze (panicked v) ≡ none)
      × (outcome_of p j (panicked v)
          ≡ (if leb (max_attempts p j) j.attempt then discarded else retried))
unfolding panicked retryable is_terminal as_snooze Apperr.retryable kind_of standard_kind
    as_classified kind_retryable
outcome_of-panicked p j v = (refl, refl)

-- A held job for whose kind there is no handler is cancelled, whatever attempts it has left.
pub invoke-unhandled :
    (p : Config) (now : ℕ) (j : Job) (handlers : Handlers) (t : Table)
    → Distinct t
    → IsHeld p.worker_id j t
    → lookup j.kind handlers ≡ none
    → (finish false p now j (invoke handlers j) t).0 ≡ cancelled
unfolding invoke unhandled
invoke-unhandled p now j handlers t d held e =
    let (awake, out) = outcome_of-unhandled p j in
    rw (e, invoke_with) (finish_failure p now j (unhandled j) t d held awake ∙ out)

-- A held job whose handler panicked is tried again until the attempts that it has under the fleet's
-- ceiling are spent, and then discarded.
pub invoke-panicked :
    (p : Config) (now : ℕ) (j : Job) (handlers : Handlers) (t : Table) (h : Job → Handled)
    (v : String)
    → Distinct t
    → IsHeld p.worker_id j t
    → lookup j.kind handlers ≡ some h
    → h j ≡ panics v
    → (finish false p now j (invoke handlers j) t).0
      ≡ (if leb (max_attempts p j) j.attempt then discarded else retried)
unfolding invoke panicked
invoke-panicked p now j handlers t h v d held e k =
    let (awake, out) = outcome_of-panicked p j v in
    rw (e, invoke_with) (rw k (finish_failure p now j (panicked v) t d held awake ∙ out))

-- A worker holds a job, under distinct ids, whose row has the budget of attempts that the job was
-- claimed with; the fleet's ceiling is above 0; and the job's failure is retryable and no snooze.
-- Then the pool's write, where the database takes it, has the outcome discarded exactly when the
-- reaper under the same ceiling, had the lease lapsed, would put the row in the discarded state.
pub discard-reap_iff :
    (p : Config) (now : ℕ) (j : Job) (e : Err) (t : Table) (r : Row) (delay : ℕ)
    → Distinct t
    → IsHeld p.worker_id j t
    → find j.id t ≡ some r
    → r.max_attempts ≡ j.max_attempts
    → 0 < p.max_attempts
    → as_snooze e ≡ none
    → retryable e ≡ true
    → ((finish false p now j (some e) t).0 ≡ discarded)
      ↔ ((reap_row now delay p.max_attempts r).state ≡ Job.discarded)
unfolding reap_row max_attempts
discard-reap_iff p now j e t r delay d held here budget ceiling awake again =
    let (q, found, _, _, same) = held in ground (arith, finish_failure p now j e t d held awake)

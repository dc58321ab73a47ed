-- ===== src/Queue/Examples/Workers.antt =====
-- internal/queue/pool.go and backoff.go at the sample table.
use gogolook_task_api.Prelude.{true, false, none, some, [], ◌∷◌, ◌≡◌, ◌↔◌, refl, arith}
use gogolook_task_api.Apperr.{
  Err, plain, is_sentinel, kind_of, standard_kind, as_classified, kind_retryable,
}
use gogolook_task_api.Apperr
use gogolook_task_api.Queue.Job.{
  Job, State, Outcome, succeeded, cancelled, discarded, retried, running, is_terminal,
}
use gogolook_task_api.Queue.Job
use gogolook_task_api.Queue.Store.{Table}
use gogolook_task_api.Queue.Maintenance.{reap_row}
use gogolook_task_api.Queue.Backoff.{for_attempt, raw, window}
use gogolook_task_api.Queue.Pool.{System, as_snooze, retryable, finish, beat}
use gogolook_task_api.Queue.Pool.Fate.{discard-reap_iff}
use gogolook_task_api.Queue.Pool.Beat.{beat_cancels_all, Runs}
use gogolook_task_api.Queue.Pool.Loop.{Round, claim_rounds, claim_rounds-ends}
use gogolook_task_api.Queue.Samples.{held_row, jobs, held_job, steady, worker, pool_state}
use gogolook_task_api.Queue.Examples.Statements.{Distinct-jobs, held}

second_wait : for_attempt steady 2 ≡ 16000
unfolding for_attempt raw window
second_wait = refl

again : retryable (plain "timeout") ≡ true
unfolding retryable is_terminal Apperr.retryable kind_of standard_kind as_classified kind_retryable
again = refl

awake : as_snooze (plain "timeout") ≡ none
unfolding as_snooze
awake = refl

discard-reap_iff_example :
    ((finish false worker 120 held_job (some (plain "timeout")) jobs).0 ≡ discarded)
    ↔ ((reap_row 120 10 3 held_row).state ≡ Job.discarded)
discard-reap_iff_example =
    discard-reap_iff worker 120 held_job (plain "timeout") jobs held_row 10 Distinct-jobs held refl
      refl (omega arith) awake again

-- Job 5 was sent and 6 was at hand when the context ended; 7 came last.
abbrev sent_job : Job
sent_job = record held_job { id = 5 }

abbrev hand_job : Job
hand_job = record held_job { id = 6 }

-- Jobs 6 and 7 run under worker "w1".
abbrev two_running : Table
two_running = record held_row { id = 6 } ∷ jobs

abbrev two_claimed : System
two_claimed = record pool_state { table = two_running }

-- Job 9 is already finished and not yet untracked; job 7 runs.
abbrev two_in_flight : System
two_in_flight = record pool_state { inflight = (7, true) ∷ (9, true) ∷ [] }

not_run : ¬ Runs "w1" 9 jobs
not_run (r, e, is_running, owner) = ground arith

beat_cancels_all_example : (beat worker false 125 two_in_flight).cancelled ≡ 7 ∷ 9 ∷ []
beat_cancels_all_example = beat_cancels_all worker 125 two_in_flight 9 Distinct-jobs refl not_run

abbrev calm : Round
calm = record { ended = false; refused = false; now = 200; locked = []; sent = 9; waits = true }

claim_rounds-ends_example :
    (s' : System) × (claim_rounds worker (λ k. calm) 0 9 pool_state ≡ some s')
claim_rounds-ends_example = claim_rounds-ends worker (λ k. calm) 0 9 pool_state (omega arith)

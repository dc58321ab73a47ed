-- ===== src/Webhook/Examples.antt =====
-- The theorems on deliveries at the sample job, and tests of the definitions.
use gogolook_task_api.Prelude.Interval.{interval}
use gogolook_task_api.Prelude.{◌-◌, ◌+◌, true, false, none, some, [], ◌∷◌, ◌≡◌, refl, codes}
use gogolook_task_api.Prelude.Decimal.{decimal}
use gogolook_task_api.Queue.Job.{Row, scheduled, snoozed}
use gogolook_task_api.Queue.Store.Guard.{find, Distinct}
use gogolook_task_api.Queue.Store.Held.{IsHeld}
use gogolook_task_api.Queue.Pool.{finish}
use gogolook_task_api.Queue.Samples.{held_row, jobs, held_job, worker}
use gogolook_task_api.Pgrepo.Samples.{names, sample_event}
use gogolook_task_api.Webhook.Delivery.{
  Webhook, Guard, circuit_open, responds, is_dependency_failure, handle, delivery_key,
}
use gogolook_task_api.Webhook.Outcomes.{outcome_of, verdict, is_deferred, handle-outcome}
use gogolook_task_api.Webhook.Refusals.{wait_of, handle-refused}

-- An endpoint that rejects every event, and a chain whose circuit is open.
abbrev rejecting : Webhook
rejecting = record {
  url = "http://sink";
  builds = true;
  timeout = 50000;
  guard = none;
  endpoint = λ k req. responds 422;
}

abbrev open_guard : Guard
open_guard = record { name = "webhook"; remaining_delay = 30000; run = λ f. circuit_open }

abbrev guarded : Webhook
guarded = record rejecting { guard = some open_guard }

Distinct-jobs : Distinct jobs
Distinct-jobs = (refl, (refl, (refl, tt)))

held : IsHeld "w1" held_job jobs
held = (held_row, refl, refl, refl, refl)

-- "7:2": the job and its attempt.
key_text : delivery_key held_job ≡ codes "7:2"
unfolding delivery_key decimal codes
key_text = refl

handle-outcome_example :
    ((finish false worker 120 held_job (handle names rejecting held_job) jobs).0
      ≡ outcome_of worker held_job (verdict 422))
    × (is_dependency_failure (handle names rejecting held_job) ≡ is_deferred (verdict 422))
handle-outcome_example =
    handle-outcome names rejecting worker 120 held_job jobs held_row sample_event (101 ∷ []) 422
      Distinct-jobs held refl refl refl refl refl refl refl

handle-refused_example :
    let (o, t') = finish false worker 120 held_job (handle names guarded held_job) jobs in
    (o ≡ snoozed)
    × (q : Row) × (find 7 t' ≡ some q)
    × (q.state ≡ scheduled)
    × (q.attempt ≡ 2 - 1)
    × (q.locked_by ≡ none)
    × (q.scheduled_at ≡ 120 + interval (wait_of guarded open_guard circuit_open))
handle-refused_example =
    handle-refused names guarded open_guard worker 120 held_job jobs held_row sample_event
      (101 ∷ []) circuit_open Distinct-jobs held refl refl refl refl refl refl refl tt

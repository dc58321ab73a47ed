-- ===== src/Webhook/Headers.antt =====
-- The requests of deliveries, in Handle and rewind of internal/queue/handler/webhook.go.
use gogolook_task_api.Prelude.{ℕ, List, ◌≡◌, refl}
use gogolook_task_api.Prelude.Decimal.{decimal-All, decimal-injective, append_colon-injective}
use gogolook_task_api.Queue.Job.{Job}
use gogolook_task_api.Pgrepo.{EventCodec, Event, event_job}
use gogolook_task_api.Webhook.Delivery.{Webhook, rewind, attempt, send, request_of, delivery_key}

-- Two deliveries with the same Idempotency-Key are of the same attempt of the same job.
pub delivery_key-injective :
    (i j : Job) → delivery_key i ≡ delivery_key j → (i.id ≡ j.id) × (i.attempt ≡ j.attempt)
unfolding delivery_key
delivery_key-injective i j e =
    let (ids, attempts) = append_colon-injective _ _ _ _ (decimal-All i.id) (decimal-All j.id) e in
    (decimal-injective i.id j.id ids, decimal-injective i.attempt j.attempt attempts)

-- Every attempt of a policy chain posts the whole body, whatever an attempt before it has read of
-- the request's, under the id by which the outbox dedupes the event.
pub attempt-whole :
    (codec : EventCodec) (w : Webhook) (j : Job) (event : Event) (body unread : List ℕ) (k : ℕ)
    → (attempt w (record (request_of codec j event body) { body = unread }) k
        ≡ send (w.endpoint k (request_of codec j event body)))
      × ((request_of codec j event body).event_header ≡ (event_job codec event).unique_key)
unfolding attempt rewind request_of event_job
attempt-whole codec w j event body unread k = (refl, refl)

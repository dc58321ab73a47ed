-- ===== src/Webhook/Delivery.antt =====
-- internal/queue/handler/webhook.go. The endpoint, the JSON texts and the policy chain of
-- internal/resilience are other packages', given as parameters; observers, logs and spans are left
-- out, and the numbers of the messages.
use Prim.Native.String
use gogolook_task_api.Prelude.{
  ℕ, String, str_eq, Bool, false, not, ◌&&◌, Option, none, some, List, ◌∷◌, ◌++◌, ◌==◌, ltb, leb,
  if◌then◌else◌,
}
use gogolook_task_api.Prelude.Decimal.{decimal}
use gogolook_task_api.Apperr.{Err, plain, wrapped, new, wrap, exhausted, unavailable, invalid}
use gogolook_task_api.Apperr.Result.{Result, ok, err}
use gogolook_task_api.Queue.Job.{Job, terminal, snooze, is_terminal}
use gogolook_task_api.Pgrepo.{EventCodec, Event, event_id}

-- What the endpoint gives for an attempt: a status, or an error of the transport.
pub data Reply : Type 0 where
  responds : ℕ → Reply
  unreachable : Err → Reply

-- `http.Request`: what is left of the body, and what GetBody gives, where there is one.
pub record HttpRequest : Type 0 where
  pub idempotency_key : List ℕ
  pub event_header : List ℕ
  pub body : List ℕ
  pub get_body : Option (Result (List ℕ))

-- How a chain ends: with what the call returned, or with a refusal of its own.
pub data Ending : Type 0 where
  finished : Option Err → Ending
  circuit_open budget_exceeded : Ending

-- `resilience.Executor`: `run` gets the call by the number of its attempt, from 0.
pub record Guard : Type 0 where
  pub name : String
  pub remaining_delay : ℕ
  pub run : (ℕ → Option Err) → Ending

-- `Webhook`; `builds` is whether NewRequest accepts the url, and `endpoint` what a request gets.
pub record Webhook : Type 0 where
  pub url : String
  pub builds : Bool
  pub timeout : ℕ
  pub guard : Option Guard
  pub endpoint : ℕ → HttpRequest → Reply

-- `IsDependencyFailure`.
unfoldable pub is_dependency_failure : Option Err → Bool
unfolding is_terminal
is_dependency_failure none = false
is_dependency_failure (some e) = not (is_terminal e)

-- `classify`.
unfoldable pub classify : ℕ → Option Err
unfolding new terminal
classify status =
    if leb 200 status && ltb status 300
    then none
    else if status == 429
    then some (new exhausted "webhook rate limited")
    else if leb 500 status
    then some (new unavailable "webhook returned")
    else if leb 400 status
    then some (terminal (some (new invalid "webhook rejected the event with")))
    else some (new unavailable "webhook returned")

-- `resultOf`.
unfoldable pub result_of : Option Err → String
unfolding is_terminal
result_of none = "success"
result_of (some e) = if is_terminal e then "rejected" else "failure"

-- `send`.
unfoldable pub send : Reply → Option Err
unfolding classify wrap
send (unreachable e) = some (wrap unavailable e "webhook delivery failed")
send (responds status) = classify status

abbrev pub with_body : HttpRequest → Result (List ℕ) → Result HttpRequest
with_body req (ok body) = ok (record req { body = body })
with_body req (err e) = err (wrapped "rewind request body" e)

abbrev pub rewound : HttpRequest → Option (Result (List ℕ)) → Result HttpRequest
rewound req none = ok req
rewound req (some body) = with_body req body

-- `rewind`.
unfoldable pub rewind : HttpRequest → Result HttpRequest
rewind req = rewound req req.get_body

abbrev pub try_send : Webhook → ℕ → Result HttpRequest → Option Err
try_send w k (err e) = some (terminal (some e))
try_send w k (ok next) = send (w.endpoint k next)

-- One call of the chain: its attempt has a fresh body.
unfoldable pub attempt : Webhook → HttpRequest → ℕ → Option Err
unfolding rewind send terminal
attempt w req k = try_send w k (rewind req)

-- What Deliver makes of the end of the chain.
unfoldable pub ended : Webhook → Guard → Ending → Option Err
unfolding snooze
ended w g (finished e) = e
ended w g circuit_open =
    some (snooze g.remaining_delay (String.◌++◌ "circuit breaker open for " g.name))
ended w g budget_exceeded =
    some (snooze w.timeout (String.◌++◌ "retry budget exhausted for " g.name))

unfoldable pub deliver_by : Option Guard → Webhook → HttpRequest → Option Err
unfolding ended attempt
deliver_by none w req = send (w.endpoint 0 req)
deliver_by (some g) w req = ended w g (g.run (attempt w req))

-- `deliver`.
unfoldable pub deliver : Webhook → HttpRequest → Option Err
unfolding deliver_by
deliver w req = deliver_by w.guard w req

-- The Idempotency-Key header: the job and its attempt.
unfoldable pub delivery_key : Job → List ℕ
unfolding decimal
delivery_key j = decimal j.id ++ 58 ∷ decimal j.attempt

-- The request of a job; a reader of bytes has its GetBody.
unfoldable pub request_of : EventCodec → Job → Event → List ℕ → HttpRequest
unfolding delivery_key event_id
request_of codec j event body = record {
  idempotency_key = delivery_key j;
  event_header = event_id codec event;
  body = body;
  get_body = some (ok body);
}

unfoldable pub post : EventCodec → Webhook → Job → Event → Option (List ℕ) → Option Err
unfolding deliver request_of terminal
post codec w j event none = some (terminal (some (wrapped "marshal event" (plain "marshal"))))
post codec w j event (some body) =
    if w.builds
    then deliver w (request_of codec j event body)
    else some (terminal (some (wrapped "build request" (plain "url"))))

unfoldable pub handle_event : EventCodec → Webhook → Job → Option Event → Option Err
unfolding post terminal
handle_event codec w j none =
    some (terminal (some (wrapped "queue: payload is not usable" (plain "json"))))
handle_event codec w j (some event) =
    if str_eq w.url "" then none else post codec w j event (codec.marshal event)

-- `Handle`.
unfoldable pub handle : EventCodec → Webhook → Job → Option Err
unfolding handle_event
handle codec w j = handle_event codec w j (codec.unmarshal j.payload)

-- ===== src/Queue/Pool/Decide.antt =====
-- `invoke`, `finish`, `write`, `maxAttempts`, `retryable` and `isSnooze` of internal/queue/pool.go.
use Prim.Native.String
use gogolook_task_api.Prelude.{
  ℕ, String, lookup, Bool, false, not, ◌&&◌, Option, none, some, List, ltb, leb, if◌then◌else◌,
}
use gogolook_task_api.Apperr.{
  Err, plain, context_canceled, deadline_exceeded, terminal_sentinel, snooze_error, app, app_cause,
  wrapped, joined, or_else,
}
use gogolook_task_api.Apperr
use gogolook_task_api.Queue.Job.{
  Job, Outcome, succeeded, retried, cancelled, discarded, snoozed, lost, is_terminal, terminal,
}
use gogolook_task_api.Queue.Backoff.{Backoff, for_attempt}
use gogolook_task_api.Queue.Store.{Table, succeed, retry, cancel, discard}
use gogolook_task_api.Queue.Store

-- `errors.As` at `*SnoozeError`: For and Reason.
unfoldable pub as_snooze : Err → Option (ℕ × String)
as_snooze (snooze_error d r) = some (d, r)
as_snooze (app_cause c e) = as_snooze e
as_snooze (wrapped s e) = as_snooze e
as_snooze (joined a b) = or_else (as_snooze a) (as_snooze b)
as_snooze (app c) = none
as_snooze (plain s) = none
as_snooze context_canceled = none
as_snooze deadline_exceeded = none
as_snooze terminal_sentinel = none

-- The part of the configuration that decides an outcome. `error_text` is `err.Error()`, as bytes.
pub record Config : Type 0 where
  pub worker_id : String
  pub max_attempts : ℕ
  pub claim_batch : ℕ
  pub lease : ℕ
  pub backoff : Backoff
  pub error_text : Err → List ℕ

-- `maxAttempts`: the lower of the job's budget and the fleet's ceiling, where there is one.
unfoldable pub max_attempts : Config → Job → ℕ
max_attempts p j =
    if ltb 0 p.max_attempts && ltb p.max_attempts j.max_attempts
    then p.max_attempts
    else j.max_attempts

unfoldable pub retryable : Err → Bool
retryable e = if is_terminal e then false else Apperr.retryable (some e)

abbrev tag : Outcome → Table × Bool → Outcome × Table × Bool
tag o (t, held) = (o, t, held)

-- `write` for an error that is no snooze.
unfoldable pub write_failure : Config → ℕ → Job → Err → Table → Outcome × Table × Bool
unfolding retryable max_attempts
write_failure p now j e t =
    if not (retryable e)
    then tag cancelled (cancel now p.worker_id j (some (p.error_text e)) t)
    else if leb (max_attempts p j) j.attempt
    then tag discarded (discard now p.worker_id j (some (p.error_text e)) t)
    else tag retried
        (retry now p.worker_id j (for_attempt p.backoff j.attempt) (some (p.error_text e)) t)

unfoldable pub write_error :
    Config → ℕ → Job → Err → Option (ℕ × String) → Table → Outcome × Table × Bool
unfolding write_failure
write_error p now j e (some (d, r)) t = tag snoozed (Store.snooze now p.worker_id j d t)
write_error p now j e none t = write_failure p now j e t

-- `write`: applies the outcome that the handler's error implies; nil is `none`.
unfoldable pub write : Config → ℕ → Job → Option Err → Table → Outcome × Table × Bool
unfolding write_error
write p now j none t = tag succeeded (succeed now p.worker_id j t)
write p now j (some e) t = write_error p now j e (as_snooze e) t

-- `finish`. Where the database refuses the statement the table is as it was and the outcome lost.
unfoldable pub finish : Bool → Config → ℕ → Job → Option Err → Table → Outcome × Table
unfolding write
finish refused p now j cause t =
    let (outcome, t', held) = write p now j cause t in
    if refused then (lost, t) else if held then (outcome, t') else (lost, t')

-- A handler returns an error, or panics with a value that prints as the text.
pub data Handled : Type 0 where
  returns : Option Err → Handled
  panics : String → Handled

abbrev pub Handlers : Type 0
Handlers = List (String × (Job → Handled))

recovered : Handled → Option Err
recovered (returns e) = e
recovered (panics v) = some (plain (String.◌++◌ "handler panicked: " v))

unfoldable pub invoke_with : Option (Job → Handled) → Job → Option Err
unfolding recovered
invoke_with none j = some (terminal (some (plain (String.◌++◌ "no handler for kind " j.kind))))
invoke_with (some handler) j = recovered (handler j)

-- `invoke`: a panic becomes an error, and a kind without a handler a terminal one (the quotes round
-- the kind are left out).
unfoldable pub invoke : Handlers → Job → Option Err
unfolding invoke_with
invoke handlers j = invoke_with (lookup j.kind handlers) j

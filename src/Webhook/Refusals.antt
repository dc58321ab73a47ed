-- ===== src/Webhook/Refusals.antt =====
-- A delivery that the policy chain refuses, in deliver of internal/queue/handler/webhook.go, costs
-- the job no attempt.
use gogolook_task_api.Prelude.{
  ℕ, ◌-◌, ◌+◌, String, str_eq, true, false, Option, none, some, List, ◌≡◌, refl, ap, ◌∙◌, sym,
  subst, arith,
}
use gogolook_task_api.Prelude.Interval.{interval}
use gogolook_task_api.Apperr.{Err}
use gogolook_task_api.Queue.Job.{Row, Job, Outcome, snoozed, snooze, scheduled}
use gogolook_task_api.Queue.Store.{Table, Completion, snoozes, completed_row, snooze_row}
use gogolook_task_api.Queue.Store.Guard.{find, Distinct}
use gogolook_task_api.Queue.Store.Held.{IsHeld}
use gogolook_task_api.Queue.Pool.{Config, as_snooze, finish}
use gogolook_task_api.Queue.Pool.Outcomes.{Fits, finish_held}
use gogolook_task_api.Pgrepo.{EventCodec, Event}
use gogolook_task_api.Webhook.Delivery.{
  Webhook, Guard, Ending, finished, circuit_open, budget_exceeded, attempt, ended, deliver,
  deliver_by, request_of, post, handle_event, handle,
}

abbrev snooze_of : Option Err → Option (ℕ × String)
snooze_of none = none
snooze_of (some e) = as_snooze e

snooze-read :
    (d : ℕ) (reason : String) (e : Err)
    → some (snooze d reason) ≡ some e
    → as_snooze e ≡ some (d, reason)
unfolding as_snooze snooze
snooze-read d reason e is_e = sym (ap snooze_of is_e)

-- A snooze and nothing else fits an error that asks for one.
Fits-snoozed :
    (p : Config) (j : Job) (d : ℕ) (reason : String) (o : Outcome) (c : Completion)
    → Fits p j (some (snooze d reason)) o c
    → (o ≡ snoozed) × (c ≡ snoozes d)
Fits-snoozed p j d reason Outcome.succeeded c (_, e) = absurd (ground arith)
Fits-snoozed p j d reason Outcome.retried c (e, is_e, plainly, _, _, _) =
    let same = snooze-read d reason e is_e in absurd (ground arith)
Fits-snoozed p j d reason Outcome.cancelled c (e, is_e, plainly, _, _) =
    let same = snooze-read d reason e is_e in absurd (ground arith)
Fits-snoozed p j d reason Outcome.discarded c (e, is_e, plainly, _, _, _) =
    let same = snooze-read d reason e is_e in absurd (ground arith)
Fits-snoozed p j d reason snoozed c (e, is_e, other, r, sleeps, is_c) =
    let same = snooze-read d reason e is_e in (refl, ground arith)
Fits-snoozed p j d reason Outcome.lost c f = absurd f

finish-snoozed :
    (p : Config) (now : ℕ) (j : Job) (d : ℕ) (reason : String) (t : Table) (r : Row)
    → Distinct t
    → IsHeld p.worker_id j t
    → find j.id t ≡ some r
    → let (o, t') = finish false p now j (some (snooze d reason)) t in
      (o ≡ snoozed) × (find j.id t' ≡ some (snooze_row now (interval d) r))
unfolding completed_row
finish-snoozed p now j d reason t r dis held is_r =
    let (c, fits, landed) = finish_held p now j (some (snooze d reason)) t dis r held is_r in
    let o = (finish false p now j (some (snooze d reason)) t).0 in
    let (is_o, is_c) = Fits-snoozed p j d reason o c fits in
    (is_o, landed.1 ∙ ap (λ x. some (completed_row now p.worker_id x r)) is_c)

-- An end of the chain that is a refusal of its own.
abbrev pub IsRefusal : Ending → Type 0
IsRefusal (finished e) = ⊥
IsRefusal circuit_open = Unit
IsRefusal budget_exceeded = Unit

-- How long a refused delivery waits.
abbrev pub wait_of : Webhook → Guard → Ending → ℕ
wait_of w g (finished e) = 0
wait_of w g circuit_open = g.remaining_delay
wait_of w g budget_exceeded = w.timeout

ended-snoozed :
    (w : Webhook) (g : Guard) (end : Ending)
    → IsRefusal end
    → (reason : String) × (ended w g end ≡ some (snooze (wait_of w g end) reason))
unfolding ended
ended-snoozed w g (finished e) h = absurd h
ended-snoozed w g circuit_open h = (_, refl)
ended-snoozed w g budget_exceeded h = (_, refl)

handle-ended :
    (codec : EventCodec) (w : Webhook) (g : Guard) (j : Job) (event : Event) (body : List ℕ)
    → str_eq w.url "" ≡ false
    → w.builds ≡ true
    → w.guard ≡ some g
    → codec.unmarshal j.payload ≡ some event
    → codec.marshal event ≡ some body
    → handle codec w j ≡ ended w g (g.run (attempt w (request_of codec j event body)))
unfolding handle handle_event post deliver deliver_by
handle-ended codec w g j event body url builds guarded read written =
    simp (read, url, written, builds, guarded) refl

-- A job that its worker holds, with a url, an event that can be read and written and a request that
-- can be built, and whose delivery the chain refuses, because the circuit is open or the retry
-- budget spent, is put off: where the database takes the write, it is scheduled for the time of the
-- write and the chain's remaining delay, or the endpoint's timeout, cut to microseconds, is
-- unlocked and has its attempt back, whatever its attempts are.
pub handle-refused :
    (codec : EventCodec) (w : Webhook) (g : Guard) (p : Config) (now : ℕ) (j : Job) (t : Table)
    (r : Row) (event : Event) (body : List ℕ) (end : Ending)
    → Distinct t
    → IsHeld p.worker_id j t
    → find j.id t ≡ some r
    → str_eq w.url "" ≡ false
    → w.builds ≡ true
    → w.guard ≡ some g
    → codec.unmarshal j.payload ≡ some event
    → codec.marshal event ≡ some body
    → g.run (attempt w (request_of codec j event body)) ≡ end
    → IsRefusal end
    → let (o, t') = finish false p now j (handle codec w j) t in
      (o ≡ snoozed)
      × (q : Row) × (find j.id t' ≡ some q)
      × (q.state ≡ scheduled)
      × (q.attempt ≡ r.attempt - 1)
      × (q.locked_by ≡ none)
      × (q.scheduled_at ≡ now + interval (wait_of w g end))
unfolding snooze_row
handle-refused codec w g p now j t r event body end dis held is_r url builds guarded read written
      ends refuses =
    let (reason, is_snooze) = ended-snoozed w g end refuses in
    let cause : handle codec w j ≡ some (snooze (wait_of w g end) reason) =
      handle-ended codec w g j event body url builds guarded read written
      ∙ ap (ended w g) ends
      ∙ is_snooze in
    let (is_o, is_q) = finish-snoozed p now j (wait_of w g end) reason t r dis held is_r in
    subst
      (λ e.
        let (o, t') = finish false p now j e t in
        (o ≡ snoozed)
        × (q : Row) × (find j.id t' ≡ some q)
        × (q.state ≡ scheduled)
        × (q.attempt ≡ r.attempt - 1)
        × (q.locked_by ≡ none)
        × (q.scheduled_at ≡ now + interval (wait_of w g end)))
      (sym cause)
      (is_o, snooze_row now (interval (wait_of w g end)) r, is_q, refl, refl, refl, refl)

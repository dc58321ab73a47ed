-- ===== src/Webhook/Outcomes.antt =====
-- What becomes of a job whose event is delivered: internal/queue/handler/webhook.go under finish of
-- internal/queue/pool.go.
use gogolook_task_api.Prelude.{
  ℕ, String, str_eq, Bool, true, false, not, ◌&&◌, Option, none, some, List, ◌≡◌, refl, ap, ◌∙◌,
  sym, subst, inl, inr, Bool-cases, arith, ltb, leb, ◌==◌, if◌then◌else◌,
}
use gogolook_task_api.Apperr.{Err, is_sentinel, as_classified, kind_of, kind_retryable, new}
use gogolook_task_api.Apperr.{retryable as app_retryable}
use gogolook_task_api.Queue.Job.{
  Row, Job, Outcome, succeeded, retried, cancelled, discarded, snoozed, lost, is_terminal, terminal,
}
use gogolook_task_api.Queue.Store.{Table, Completion}
use gogolook_task_api.Queue.Store.Guard.{find, Distinct}
use gogolook_task_api.Queue.Store.Held.{IsHeld}
use gogolook_task_api.Queue.Pool.{Config, as_snooze, max_attempts, retryable, finish}
use gogolook_task_api.Queue.Pool.Outcomes.{Fits, finish_held}
use gogolook_task_api.Pgrepo.{EventCodec, Event}
use gogolook_task_api.Webhook.Delivery.{
  Webhook, responds, classify, send, is_dependency_failure, handle, handle_event, post, deliver,
  deliver_by, request_of,
}

-- The three readings of a response.
pub data Verdict : Type 0 where
  delivered rejected deferred : Verdict

-- A 2xx delivers, a 4xx but 429 rejects, and everything else is the endpoint's failure.
abbrev pub verdict : ℕ → Verdict
verdict s =
    if leb 200 s && leb s 299
    then delivered
    else if leb 400 s && (leb s 499 && not (s == 429))
    then rejected
    else deferred

-- The errors that go with a verdict.
abbrev pub Reads : Verdict → Option Err → Type 0
Reads delivered cause = cause ≡ none
Reads rejected cause = (e : Err) × (cause ≡ some e) × (as_snooze e ≡ none) × (retryable e ≡ false)
Reads deferred cause = (e : Err) × (cause ≡ some e) × (as_snooze e ≡ none) × (retryable e ≡ true)

abbrev pub is_deferred : Verdict → Bool
is_deferred delivered = false
is_deferred rejected = false
is_deferred deferred = true

classify-Reads :
    (s : ℕ)
    → Reads (verdict s) (classify s)
      × (is_dependency_failure (classify s) ≡ is_deferred (verdict s))
unfolding classify as_snooze retryable is_terminal is_dependency_failure app_retryable kind_of
    kind_retryable terminal new as_classified is_sentinel
classify-Reads s = elim (Bool-cases (leb 200 s && ltb s 300)) [
  | inl good ↦
      let also : (leb 200 s && leb s 299) ≡ true = ground arith in rw (good, also) (refl, refl)
  | inr bad ↦
      let also : (leb 200 s && leb s 299) ≡ false = ground arith in
      elim (Bool-cases (s == 429)) [
        | inl busy ↦
            let kept : (leb 400 s && (leb s 499 && not (s == 429))) ≡ false = ground arith in
            rw (bad, also, kept, busy) ((_, refl, refl, refl), refl)
        | inr other ↦ elim (Bool-cases (leb 500 s)) [
          | inl theirs ↦
              let kept : (leb 400 s && (leb s 499 && not (s == 429))) ≡ false = ground arith in
              rw (bad, also, kept, other, theirs) ((_, refl, refl, refl), refl)
          | inr below ↦ elim (Bool-cases (leb 400 s)) [
            | inl ours ↦
                let kept : (leb 400 s && (leb s 499 && not (s == 429))) ≡ true = ground arith in
                rw (bad, also, kept, other, below, ours) ((_, refl, refl, refl), refl)
            | inr odd ↦
                let kept : (leb 400 s && (leb s 499 && not (s == 429))) ≡ false = ground arith in
                rw (bad, also, kept, other, below, odd) ((_, refl, refl, refl), refl)
          ]
        ]
      ]
]

-- The outcome that a verdict calls for, at the attempt of a job.
abbrev pub outcome_of : Config → Job → Verdict → Outcome
outcome_of p j delivered = succeeded
outcome_of p j rejected = cancelled
outcome_of p j deferred = if leb (max_attempts p j) j.attempt then discarded else retried

abbrev by_reading : Config → Job → Option (ℕ × String) → Bool → Outcome
by_reading p j (some x) again = snoozed
by_reading p j none true = outcome_of p j deferred
by_reading p j none false = cancelled

-- The outcome that an error calls for.
abbrev called_for : Config → Job → Option Err → Outcome
called_for p j none = succeeded
called_for p j (some e) = by_reading p j (as_snooze e) (retryable e)

Fits-called_for :
    (p : Config) (j : Job) (cause : Option Err) (o : Outcome) (c : Completion)
    → Fits p j cause o c
    → o ≡ called_for p j cause
Fits-called_for p j cause succeeded c (_, is_none) = rw is_none refl
Fits-called_for p j cause retried c (e, is_e, plainly, again, left, _) =
    let spent : leb (max_attempts p j) j.attempt ≡ false = ground arith in
    rw (is_e, plainly, again, spent) refl
Fits-called_for p j cause cancelled c (e, is_e, plainly, poison, _) =
    rw (is_e, plainly, poison) refl
Fits-called_for p j cause discarded c (e, is_e, plainly, again, over, _) =
    let spent : leb (max_attempts p j) j.attempt ≡ true = ground arith in
    rw (is_e, plainly, again, spent) refl
Fits-called_for p j cause snoozed c (e, is_e, d, r, sleeps, _) = rw (is_e, sleeps) refl
Fits-called_for p j cause lost c f = absurd f

Reads-called_for :
    (p : Config) (j : Job) (v : Verdict) (cause : Option Err)
    → Reads v cause
    → called_for p j cause ≡ outcome_of p j v
Reads-called_for p j delivered cause is_none = rw is_none refl
Reads-called_for p j rejected cause (e, is_e, plainly, poison) = rw (is_e, plainly, poison) refl
Reads-called_for p j deferred cause (e, is_e, plainly, again) = rw (is_e, plainly, again) refl

-- The outcome of a job that is delivered, held and finished.
finish-outcome :
    (p : Config) (now : ℕ) (j : Job) (v : Verdict) (cause : Option Err) (t : Table) (r : Row)
    → Distinct t
    → IsHeld p.worker_id j t
    → find j.id t ≡ some r
    → Reads v cause
    → (finish false p now j cause t).0 ≡ outcome_of p j v
finish-outcome p now j v cause t r d held is_r reads =
    let (c, fits, _) = finish_held p now j cause t d r held is_r in
    Fits-called_for p j cause (finish false p now j cause t).0 c fits
    ∙ Reads-called_for p j v cause reads

handle-classify :
    (codec : EventCodec) (w : Webhook) (j : Job) (event : Event) (body : List ℕ) (status : ℕ)
    → str_eq w.url "" ≡ false
    → w.builds ≡ true
    → w.guard ≡ none
    → codec.unmarshal j.payload ≡ some event
    → codec.marshal event ≡ some body
    → w.endpoint 0 (request_of codec j event body) ≡ responds status
    → handle codec w j ≡ classify status
unfolding handle handle_event post deliver deliver_by send
handle-classify codec w j event body status url builds bare read written replied =
    simp (read, url, written, builds, bare, replied) refl

-- With no policy chain, under distinct ids and where the database takes the write, a job that its
-- worker holds and whose event can be read, posted and is answered with a status is finished by
-- that status: 2xx succeeds, a 4xx other than 429 cancels, and anything else retries it, or
-- discards it where its attempts are spent. A chain's breaker counts exactly the last as failures
-- of the endpoint.
pub handle-outcome :
    (codec : EventCodec) (w : Webhook) (p : Config) (now : ℕ) (j : Job) (t : Table) (r : Row)
    (event : Event) (body : List ℕ) (status : ℕ)
    → Distinct t
    → IsHeld p.worker_id j t
    → find j.id t ≡ some r
    → str_eq w.url "" ≡ false
    → w.builds ≡ true
    → w.guard ≡ none
    → codec.unmarshal j.payload ≡ some event
    → codec.marshal event ≡ some body
    → w.endpoint 0 (request_of codec j event body) ≡ responds status
    → ((finish false p now j (handle codec w j) t).0 ≡ outcome_of p j (verdict status))
      × (is_dependency_failure (handle codec w j) ≡ is_deferred (verdict status))
handle-outcome codec w p now j t r event body status d held is_r url builds bare read written
      replied =
    let sent = handle-classify codec w j event body status url builds bare read written replied in
    (
      finish-outcome p now j (verdict status) (handle codec w j) t r d held is_r
          (subst (Reads (verdict status)) (sym sent) (classify-Reads status).0),
      ap is_dependency_failure sent ∙ (classify-Reads status).1,
    )

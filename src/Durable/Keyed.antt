-- ===== src/Durable/Keyed.antt =====
-- What a keyed request leaves whose handler makes one write of internal/task/pgrepo.
use gogolook_task_api.Prelude.{
  ℕ, true, false, Option, none, some, List, [], ◌∷◌, ◌++◌, ◌+◌, ◌≡◌, refl, ap, ◌∙◌, sym, subst, inl,
  inr, arith,
}
use mathlib.Core.Path.{ap₂}
use gogolook_task_api.Prelude.Interval.{interval}
use gogolook_task_api.Prelude.Bytes.{put_key}
use gogolook_task_api.Apperr.{Err}
use gogolook_task_api.Task.{Task, Result, ok, err}
use gogolook_task_api.Queue.Outbox.{is_taken}
use gogolook_task_api.Postgres.{Database, Faults, Work, Session}
use gogolook_task_api.Pgrepo.{EventCodec, event_for, event_id, job_kind, write}
use gogolook_task_api.Pgrepo.Joined.{IsJoinedOutcome, write-IsJoinedOutcome}
use gogolook_task_api.Idempotency.{
  Request, Call, Recorder, new_recorder, record_calls, Answer, flushed, Handler, Config, is_stored,
  handle,
}
use gogolook_task_api.Durable.Store.{KeyFaults, durable_keys}
use gogolook_task_api.Durable.Outcome.{
  IsAllOrNothing, IsCommitted, IsNoSuccess, opened, opened_work, completed_row, recorder_of,
}
use gogolook_task_api.Durable.Commits.{print_of, handle-IsAllOrNothing}
use gogolook_task_api.Durable.Writes.{KeepsKeys, writes, writes-StaysInside}

abbrev work_or : Work → Option Work → Work
work_or w none = w
work_or w (some v) = v

abbrev calls_or : List Call → Option (List Call) → List Call
calls_or calls none = calls
calls_or calls (some others) = others

-- What a keyed write leaves in the database where its success is answered: the rows of its
-- statement, a live job with the id of its event, the completed key, and its notification after
-- those that the statement's transaction had.
pub record IsKeyedWrite (codec : EventCodec) (event : List ℕ) (fn : Work → Result Task × Work)
    (key print : List ℕ) (expires : ℕ) (rec : Recorder) (w0 : Work) (before after : Database)
    : Type 0 where
  pub task : Task
  pub work : Work
  pub wrote : fn w0 ≡ (ok task, work)
  pub tasks : after.tasks ≡ work.db.tasks
  pub job : is_taken (event_id codec (event_for event task)) after.jobs ≡ true
  pub keys : after.keys ≡ put_key key (completed_row print expires rec) before.keys
  pub notified : after.notified ≡ work.db.notified ++ (work.after ++ job_kind ∷ [])

-- The responses to errors are not successes.
abbrev pub RefusesErrors : (Result Task → List Call) → Type 0
RefusesErrors respond =
    (e : Err) → is_stored (record_calls (respond (err e)) new_recorder).status ≡ false

module _ (codec : EventCodec) (now : ℕ) (faults : Faults) (c : ℕ) (n : List ℕ)
    (fn : Work → Result Task × Work) (respond : Result Task → List Call)
    (refuses : RefusesErrors respond) where
  abbrev handler : Handler Session
  handler = writes codec now faults (c ∷ n) fn respond

  joined-keyed :
      (key print : List ℕ) (expires : ℕ) (s : Session) (calls : List Call) (rec : Recorder)
      (w : Work) (after : Database) (x : Result Task × Session)
      → respond x.0 ≡ calls
      → rec ≡ record_calls calls new_recorder
      → is_stored rec.status ≡ true
      → x.1.ambient ≡ some w
      → after ≡ record w.db {
        keys = put_key key (completed_row print expires rec) s.committed.keys;
        notified = w.db.notified ++ w.after;
      }
      → IsJoinedOutcome codec
          (c ∷ n)
          fn
          (opened handler key print expires s)
          (opened_work handler key print expires s)
          x
      → IsKeyedWrite codec
          (c ∷ n)
          fn
          key
          print
          expires
          rec
          (opened_work handler key print expires s)
          s.committed
          after
  joined-keyed key print expires s calls rec w after (err e, s') told is_rec good at_end is_after
        joined =
      let bad : is_stored rec.status ≡ false =
        subst (λ x. is_stored x.status ≡ false) (sym is_rec)
          (subst (λ y. is_stored (record_calls y new_recorder).status ≡ false) told (refuses e)) in
      absurd (ground arith)
  joined-keyed key print expires s calls rec w after (ok t, s') told is_rec good at_end is_after
        (v, u, wrote, same, inside, sound, tasks, keys, sent, hooks, job) =
      let one : w ≡ u = ap (work_or u) (sym at_end ∙ inside) in
      record {
        task = t;
        work = v;
        wrote = wrote;
        tasks = ap (λ d. d.tasks) is_after ∙ ap (λ x. x.db.tasks) one ∙ tasks;
        job =
            subst (λ jobs. is_taken (event_id codec (event_for (c ∷ n) t)) jobs ≡ true)
              (sym (ap (λ d. d.jobs) is_after ∙ ap (λ x. x.db.jobs) one)) job;
        keys = ap (λ d. d.keys) is_after;
        notified =
            ap (λ d. d.notified) is_after
            ∙ ap (λ x. x.db.notified ++ x.after) one
            ∙ ap₂ ◌++◌ sent hooks;
      }

  committed-keyed :
      (key print : List ℕ) (expires : ℕ) (s : Session) (r : Request) (rec : Recorder) (a : Answer)
      (s' : Session)
      → a ≡ flushed rec
      → IsCommitted handler key print expires s r a s'
      → IsKeyedWrite codec
          (c ∷ n)
          fn
          key
          print
          expires
          rec
          (opened_work handler key print expires s)
          s.committed
          s'.committed
  committed-keyed key print expires s r rec a s' told d =
      let same : rec ≡ record_calls d.calls new_recorder =
        sym (ap recorder_of told) ∙ ap recorder_of d.answer in
      let result = write codec now faults (c ∷ n) fn (opened handler key print expires s) in
      joined-keyed key print expires s d.calls rec d.work s'.committed result
        (ap (λ x. calls_or d.calls x.0) d.ran) same
        (subst (λ x. is_stored x.status ≡ true) (sym same) d.success)
        (ap (λ x. x.1.ambient) d.ran ∙ d.at_end)
        (subst
          (λ x. s'.committed ≡ record d.work.db {
            keys = put_key key (completed_row print expires x) s.committed.keys;
            notified = d.work.db.notified ++ d.work.after;
          })
          (sym same) d.committed)
        (write-IsJoinedOutcome codec now faults c n fn (opened handler key print expires s)
          (opened_work handler key print expires s) refl)

  outcome-keyed :
      (key print : List ℕ) (expires : ℕ) (s : Session) (r : Request) (rec : Recorder)
      (x : Answer × Session)
      → x.0 ≡ flushed rec
      → is_stored rec.status ≡ true
      → IsAllOrNothing handler key print expires s r x
      → IsKeyedWrite codec
          (c ∷ n)
          fn
          key
          print
          expires
          rec
          (opened_work handler key print expires s)
          s.committed
          x.1.committed
  outcome-keyed key print expires s r rec (a, s') told good (closed, inl (same, nothing)) =
      let bad : is_stored rec.status ≡ false =
        subst (IsNoSuccess key print s.committed.keys) told nothing in
      absurd (ground arith)
  outcome-keyed key print expires s r rec (a, s') told good (closed, inr d) =
      committed-keyed key print expires s r rec a s' told d

-- A keyed request, begun with no transaction open, whose handler makes one write, which leaves the
-- keys alone, with responses to errors that are no successes: when its success is answered as a
-- response to be stored, the database has the rows of the write, a live job with the id of
-- its event and the completed key with the answer, and the workers have been notified.
pub handle-IsKeyedWrite :
    (codec : EventCodec) (now : ℕ) (faults : Faults) (c : ℕ) (n : List ℕ)
    (fn : Work → Result Task × Work) (respond : Result Task → List Call) (kf : KeyFaults)
    (digest : List ℕ → List ℕ) (cfg : Config) (checked stored : ℕ) (r : Request) (s : Session)
    (rec : Recorder)
    → RefusesErrors respond
    → KeepsKeys fn
    → s.ambient ≡ none
    → let h = writes codec now faults (c ∷ n) fn respond in
      let x = handle (durable_keys kf) h digest cfg checked stored r s in
      let print = print_of digest r r.body in
      x.0 ≡ flushed rec
      → is_stored rec.status ≡ true
      → IsKeyedWrite codec
          (c ∷ n)
          fn
          r.key
          print
          (stored + interval cfg.ttl)
          rec
          (opened_work h r.key print (stored + interval cfg.ttl) s)
          s.committed
          x.1.committed
handle-IsKeyedWrite codec now faults c n fn respond kf digest cfg checked stored r s rec refuses
      keeps alone told good =
    let h = writes codec now faults (c ∷ n) fn respond in
    outcome-keyed codec now faults c n fn respond refuses r.key (print_of digest r r.body)
      (stored + interval cfg.ttl) s r rec (handle (durable_keys kf) h digest cfg checked stored r s)
      told good
      (handle-IsAllOrNothing kf h digest cfg checked stored r s
        (writes-StaysInside codec now faults (c ∷ n) fn respond keeps) alone)

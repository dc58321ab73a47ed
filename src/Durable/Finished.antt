-- ===== src/Durable/Finished.antt =====
-- The keys that PostgreSQL shows are those of finished requests.
use gogolook_task_api.Prelude.{
  ℕ, Bool, true, false, ◌||◌, Option, none, some, List, [], ◌∷◌, ◌+◌, ◌≡◌, refl, sym, subst, inl,
  inr, Bool-cases, arith, ◌==◌, All,
}
use gogolook_task_api.Prelude.Interval.{interval}
use gogolook_task_api.Prelude.Bytes.{find_key, put_key, bytes_eq}
use gogolook_task_api.Idempotency.{
  Record, Keys, MemRecord, is_completed, Request, Handler, Config, Answer, problem, direct, flushed,
  replayed, panicked, handle, handle_body, reserved_answer, execute, after_handler, store_response,
  completed_answer, abandoned_answer, replay, Recorder, new_recorder, record_calls, Call, Body,
  whole, too_large, unreadable, is_stored, fingerprint, identity_request,
}
use gogolook_task_api.Postgres.{Session}
use gogolook_task_api.Durable.Store.{
  KeyFaults, durable_keys, PgUnit, complete_key, reserve_key, reserve_row, answered,
}
use gogolook_task_api.Durable.Outcome.{StaysInside, IsAllOrNothing, completed_row}
use gogolook_task_api.Durable.Commits.{print_of, handle-IsAllOrNothing}

-- The keys are those of finished requests.
abbrev pub AllCompleted : Keys → Type 0
AllCompleted m = All (λ x. is_completed x.1.rec ≡ true) m

put_key-AllCompleted :
    (k : List ℕ) (v : MemRecord) (m : Keys)
    → is_completed v.rec ≡ true
    → AllCompleted m
    → AllCompleted (put_key k v m)
unfolding put_key
put_key-AllCompleted k v [] done a = (done, tt)
put_key-AllCompleted k v ((j, x) ∷ m) done a = elim (Bool-cases (bytes_eq j k)) [
  | inl same ↦ rw same (done, a.1)
  | inr other ↦ rw other (a.0, put_key-AllCompleted k v m done a.1)
]

find_key-completed :
    (k : List ℕ) (m : Keys) (held : MemRecord)
    → AllCompleted m
    → find_key k m ≡ some held
    → is_completed held.rec ≡ true
unfolding find_key
find_key-completed k [] held a is_held = ground arith
find_key-completed k ((j, x) ∷ m) held a is_held =
    ground (arith, a.0, find_key-completed k m held a.1, bytes_eq j k)

-- An answer that is not the one for a key that is in progress.
abbrev pub IsNot409 : Answer → Type 0
IsNot409 (direct calls) = Unit
IsNot409 (flushed rec) = Unit
IsNot409 (replayed rec) = Unit
IsNot409 (problem status detail) = (status == 409) ≡ false
IsNot409 panicked = Unit

module _ (faults : KeyFaults) (h : Handler Session) where
  completed_answer-IsNot409 :
      (rec : Recorder) (x : Bool × PgUnit × Session)
      → IsNot409 (completed_answer (durable_keys faults) h rec x).0
  unfolding completed_answer
  completed_answer-IsNot409 rec (true, u, s) = tt
  completed_answer-IsNot409 rec (false, u, s) = refl

  after_handler-IsNot409 :
      (u : PgUnit) (x : Option (List Call) × Session)
      → IsNot409 (after_handler (durable_keys faults) h u x).0
  unfolding after_handler store_response abandoned_answer durable_keys complete_key
  after_handler-IsNot409 u (none, s) = tt
  after_handler-IsNot409 u (some calls, s) =
      let rec = record_calls calls new_recorder in
      elim (Bool-cases (is_stored rec.status)) [
        | inr bad ↦ rw bad tt
        | inl good ↦ rw good (
            completed_answer-IsNot409 rec
              (complete_key faults u rec.status rec.content_type rec.body s))
      ]

  execute-IsNot409 :
      (u : PgUnit) (r : Request) (s : Session) → IsNot409 (execute (durable_keys faults) h u r s).0
  unfolding execute
  execute-IsNot409 u r s = after_handler-IsNot409 u (h (identity_request r) s)

  replay-IsNot409 :
      (rec : Record) (print : List ℕ) → is_completed rec ≡ true → IsNot409 (replay rec print)
  unfolding replay
  replay-IsNot409 rec print done = elim (Bool-cases (bytes_eq rec.fingerprint print)) [
    | inr other ↦ rw other refl
    | inl same ↦ rw (same, done) tt
  ]

  row-IsNot409 :
      (o : Option MemRecord) (now : ℕ) (print : List ℕ) (ttl : ℕ) (r : Request) (s : Session)
      → ((held : MemRecord) → o ≡ some held → is_completed held.rec ≡ true)
      → IsNot409
          (reserved_answer
            (durable_keys faults)
            h
            print
            r
            (answered (reserve_row o now r.key print ttl s))).0
  unfolding reserved_answer reserve_row
  row-IsNot409 none now print ttl r s done = execute-IsNot409 _ r _
  row-IsNot409 (some held) now print ttl r s done = replay-IsNot409 held.rec print (done held refl)

  body-IsNot409 :
      (digest : List ℕ → List ℕ) (cfg : Config) (checked stored : ℕ) (r : Request) (b : Body)
      (s : Session)
      → AllCompleted s.committed.keys
      → IsNot409 (handle_body (durable_keys faults) h digest cfg checked stored r b s).0
  unfolding handle_body reserved_answer durable_keys reserve_key
  body-IsNot409 digest cfg checked stored r too_large s a = refl
  body-IsNot409 digest cfg checked stored r unreadable s a = refl
  body-IsNot409 digest cfg checked stored r (whole body) s a =
      elim (Bool-cases (faults.begin || faults.first)) [
        | inl refused ↦ rw refused refl
        | inr sound ↦ rw sound (
            row-IsNot409 (find_key r.key s.committed.keys) stored
              (fingerprint digest r.method r.path body) cfg.ttl r s
              (λ held is_held. find_key-completed r.key s.committed.keys held a is_held))
      ]

handle-IsNot409 :
    (faults : KeyFaults) (h : Handler Session) (digest : List ℕ → List ℕ) (cfg : Config)
    (checked stored : ℕ) (r : Request) (s : Session)
    → AllCompleted s.committed.keys
    → IsNot409 (handle (durable_keys faults) h digest cfg checked stored r s).0
unfolding handle
handle-IsNot409 faults h digest cfg checked stored r s a =
    body-IsNot409 faults h digest cfg checked stored r r.body s a

outcome-AllCompleted :
    (h : Handler Session) (key print : List ℕ) (expires : ℕ) (s : Session) (r : Request)
    (x : Answer × Session)
    → AllCompleted s.committed.keys
    → IsAllOrNothing h key print expires s r x
    → AllCompleted x.1.committed.keys
unfolding is_completed
outcome-AllCompleted h key print expires s r (a, s') all (closed, inl (same, nothing)) =
    subst (λ t. AllCompleted t.committed.keys) (sym same) all
outcome-AllCompleted h key print expires s r (a, s') all (closed, inr c) =
    subst (λ d. AllCompleted d.keys) (sym c.committed)
      (put_key-AllCompleted key (completed_row print expires (record_calls c.calls new_recorder))
        s.committed.keys refl all)

-- Keyed requests leave only completed keys in the database, whatever fails on the way, if there
-- were only completed ones and their handlers work in the transaction they find; and none of them
-- is answered that a request with its key is still in progress.
pub handle-AllCompleted :
    (faults : KeyFaults) (h : Handler Session) (digest : List ℕ → List ℕ) (cfg : Config)
    (checked stored : ℕ) (r : Request) (s : Session)
    → StaysInside h
    → s.ambient ≡ none
    → AllCompleted s.committed.keys
    → let (a, s') = handle (durable_keys faults) h digest cfg checked stored r s in
      AllCompleted s'.committed.keys × IsNot409 a
handle-AllCompleted faults h digest cfg checked stored r s stays alone all = (
  outcome-AllCompleted h r.key (print_of digest r r.body) (stored + interval cfg.ttl) s r
      (handle (durable_keys faults) h digest cfg checked stored r s) all
      (handle-IsAllOrNothing faults h digest cfg checked stored r s stays alone),
  handle-IsNot409 faults h digest cfg checked stored r s all,
)

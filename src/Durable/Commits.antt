-- ===== src/Durable/Commits.antt =====
-- A keyed request of internal/idempotency/middleware.go over the keys of PostgreSQL is one commit.
use gogolook_task_api.Prelude.{
  ℕ, true, false, ◌||◌, Option, none, some, List, [], ◌++◌, ◌+◌, ◌≡◌, refl, ap, ◌∙◌, sym, subst,
  inl, inr, Bool-cases,
}
use gogolook_task_api.Prelude.Interval.{interval}
use gogolook_task_api.Prelude.Bytes.{find_key, put_key, bytes_eq}
use gogolook_task_api.Idempotency.{
  MemRecord, fresh_record, complete_over, Request, Body, whole, too_large, unreadable, fingerprint,
  Call, Recorder, new_recorder, record_calls, is_completed, Answer, flushed, problem, Handler,
  Config, is_stored, identity_request, replay, store_response, completed_answer, abandoned_answer,
  after_handler, execute, reserved_answer, handle_body, handle,
}
use gogolook_task_api.Postgres.{Work, Session, run_after_commit}
use gogolook_task_api.Durable.Store.{
  KeyFaults, PgUnit, closed, reserve_row, answered, complete_row, after_commit_of, reserve_key,
  complete_open, complete_key, abandon_key, durable_keys,
}
use gogolook_task_api.Durable.Outcome.{
  StaysInside, notify_all-rows, completed_row, complete_over-reserved, IsNoSuccess, opened_work,
  opened, IsAllOrNothing, closed_same,
}

module _ (h : Handler Session) (key print : List ℕ) (expires : ℕ) (s0 : Session)
    (faults : KeyFaults) (alone : s0.ambient ≡ none) where
  abbrev unit : PgUnit
  unit = record { key = key; done = false }

  module _ (r : Request) (calls : List Call) (s : Session) (w : Work)
      (ran : h (identity_request r) (opened h key print expires s0) ≡ (some calls, s))
      (same : s.committed ≡ s0.committed) (at_end : s.ambient ≡ some w)
      (keys : w.db.keys
        ≡ put_key key
            (record { rec = fresh_record print; expires = expires })
            s0.committed.keys) where
    abbrev response : Recorder
    response = record_calls calls new_recorder

    rolled_back :
        (a : Answer)
        → IsNoSuccess key print s0.committed.keys a
        → IsAllOrNothing h key print expires s0 r (a, closed s)
    rolled_back a told = (refl, inl (closed_same h key print expires s0 s same alone, told))

    abbrev work_done : Work
    work_done = complete_row key response.status response.content_type response.body w

    committed_rows : run_after_commit w work_done.db ≡ record w.db {
      keys = put_key key (completed_row print expires response) s0.committed.keys;
      notified = w.db.notified ++ w.after;
    }
    unfolding run_after_commit complete_row
    committed_rows =
        notify_all-rows w.after work_done.db
        ∙ ap (λ m. record w.db { keys = m; notified = w.db.notified ++ w.after })
            (ap
                (λ m.
                  complete_over (find_key key m) key response.status response.content_type
                    response.body m)
                keys
              ∙ complete_over-reserved key print expires response s0.committed.keys)

    not_committed :
        IsAllOrNothing h key print expires s0 r
          (problem 503 "the write could not be committed; retry with the same key", closed s)
    unfolding is_stored
    not_committed =
        rolled_back (problem 503 "the write could not be committed; retry with the same key") refl

    open_outcome :
        is_stored response.status ≡ true
        → IsAllOrNothing h key print expires s0 r (
            completed_answer (durable_keys faults) h response (
              complete_open faults
                (some w)
                unit
                response.status
                response.content_type
                response.body
                s))
    unfolding completed_answer complete_open after_commit_of durable_keys abandon_key complete_row
    open_outcome good = elim (Bool-cases (faults.second || w.is_aborted)) [
      | inl refused ↦ rw refused not_committed
      | inr sound ↦ elim (Bool-cases (faults.commit || w.is_aborted)) [
        | inl refused ↦ rw (sound, refused) not_committed
        | inr done ↦
            rw (sound, done)
              (
                refl,
                inr (record {
                  calls = calls;
                  work = w;
                  inside = s;
                  ran = ran;
                  at_end = at_end;
                  answer = refl;
                  success = good;
                  committed = committed_rows;
                }),
              )
      ]
    ]

    store_response-outcome :
        IsAllOrNothing h key print expires s0 r
          (store_response (durable_keys faults) h unit response s)
    unfolding store_response abandoned_answer durable_keys complete_key abandon_key
    store_response-outcome = elim (Bool-cases (is_stored response.status)) [
      | inl good ↦ rw good (
          subst
            (λ a. IsAllOrNothing h key print expires s0 r (
              completed_answer (durable_keys faults) h response (
                complete_open faults a unit response.status response.content_type response.body s)))
            (sym at_end) (open_outcome good))
      | inr bad ↦ rw bad (rolled_back (flushed response) bad)
    ]

  after_handler-outcome :
      (r : Request) (x : Option (List Call) × Session) (w : Work)
      → h (identity_request r) (opened h key print expires s0) ≡ x
      → x.1.committed ≡ s0.committed
      → x.1.ambient ≡ some w
      → w.db.keys
        ≡ put_key key (record { rec = fresh_record print; expires = expires }) s0.committed.keys
      → IsAllOrNothing h key print expires s0 r (after_handler (durable_keys faults) h unit x)
  unfolding after_handler durable_keys abandon_key
  after_handler-outcome r (none, s) w ran same at_end keys =
      (refl, inl (closed_same h key print expires s0 s same alone, tt))
  after_handler-outcome r (some calls, s) w ran same at_end keys =
      store_response-outcome r calls s w ran same at_end keys

  execute-outcome :
      (r : Request)
      → StaysInside h
      → IsAllOrNothing h key print expires s0 r
          (execute (durable_keys faults) h unit r (opened h key print expires s0))
  unfolding execute
  execute-outcome r stays =
      let inside =
        stays (identity_request r) (opened h key print expires s0)
          (opened_work h key print expires s0) refl in
      after_handler-outcome r (h (identity_request r) (opened h key print expires s0)) inside.1 refl
        inside.0 inside.2 inside.3

  replay-IsNoSuccess :
      (held : MemRecord)
      → find_key key s0.committed.keys ≡ some held
      → IsNoSuccess key print s0.committed.keys (replay held.rec print)
  unfolding replay is_stored
  replay-IsNoSuccess held is_held = elim (Bool-cases (bytes_eq held.rec.fingerprint print)) [
    | inr other ↦ rw other refl
    | inl same ↦ elim (Bool-cases (is_completed held.rec)) [
      | inl done ↦
          rw (same, done)
            (record {
              held = held;
              is_held = is_held;
              recorded = refl;
              same_print = same;
              is_done = done;
            })
      | inr running ↦ rw (same, running) refl
    ]
  ]

  reserved-outcome :
      (o : Option MemRecord) (now ttl : ℕ) (r : Request)
      → StaysInside h
      → now + interval ttl ≡ expires
      → find_key key s0.committed.keys ≡ o
      → IsAllOrNothing h key print expires s0 r (
          reserved_answer
            (durable_keys faults)
            h
            print
            r
            (answered (reserve_row o now key print ttl s0)))
  unfolding reserve_row reserved_answer
  reserved-outcome none now ttl r stays until found = rw until (execute-outcome r stays)
  reserved-outcome (some held) now ttl r stays until found =
      (alone, inl (refl, replay-IsNoSuccess held found))

  reserve-outcome :
      (now ttl : ℕ) (r : Request)
      → StaysInside h
      → now + interval ttl ≡ expires
      → IsAllOrNothing h key print expires s0 r (
          reserved_answer (durable_keys faults) h print r (reserve_key faults now key print ttl s0))
  unfolding reserve_key reserved_answer is_stored
  reserve-outcome now ttl r stays until = elim (Bool-cases (faults.begin || faults.first)) [
    | inl refused ↦ rw refused (alone, inl (refl, refl))
    | inr sound ↦
        rw sound (reserved-outcome (find_key key s0.committed.keys) now ttl r stays until refl)
  ]

-- The fingerprint of a request whose body is `b`.
abbrev pub print_of : (List ℕ → List ℕ) → Request → Body → List ℕ
print_of digest r (whole body) = fingerprint digest r.method r.path body
print_of digest r too_large = []
print_of digest r unreadable = []

handle_body-IsAllOrNothing :
    (faults : KeyFaults) (h : Handler Session) (digest : List ℕ → List ℕ) (cfg : Config)
    (checked stored : ℕ) (r : Request) (b : Body) (s : Session)
    → StaysInside h
    → s.ambient ≡ none
    → IsAllOrNothing h r.key
        (print_of digest r b)
        (stored + interval cfg.ttl)
        s
        r
        (handle_body (durable_keys faults) h digest cfg checked stored r b s)
unfolding handle_body durable_keys is_stored
handle_body-IsAllOrNothing faults h digest cfg checked stored r too_large s stays alone =
    (alone, inl (refl, refl))
handle_body-IsAllOrNothing faults h digest cfg checked stored r unreadable s stays alone =
    (alone, inl (refl, refl))
handle_body-IsAllOrNothing faults h digest cfg checked stored r (whole body) s stays alone =
    reserve-outcome h r.key (fingerprint digest r.method r.path body) (stored + interval cfg.ttl) s
      faults alone stored cfg.ttl r stays refl

-- Over the keys of PostgreSQL, whatever fails on the way, a keyed request of a handler that works
-- in the transaction it finds, begun with no transaction open, ends with none open, in one of two
-- ways. Either the database is as it was and the answer is a response of the handler whose status
-- is not stored, a problem whose status is not a success, a panic, or the completed record that
-- the key held already under the fingerprint of the request, replayed. Or the answer is the
-- handler's success and one commit holds what the handler wrote, the completed key with that
-- answer, and the notifications it registered.
pub handle-IsAllOrNothing :
    (faults : KeyFaults) (h : Handler Session) (digest : List ℕ → List ℕ) (cfg : Config)
    (checked stored : ℕ) (r : Request) (s : Session)
    → StaysInside h
    → s.ambient ≡ none
    → IsAllOrNothing h r.key
        (print_of digest r r.body)
        (stored + interval cfg.ttl)
        s
        r
        (handle (durable_keys faults) h digest cfg checked stored r s)
unfolding handle
handle-IsAllOrNothing faults h digest cfg checked stored r s stays alone =
    handle_body-IsAllOrNothing faults h digest cfg checked stored r r.body s stays alone

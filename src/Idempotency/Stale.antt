-- ===== src/Idempotency/Stale.antt =====
-- A unit of internal/idempotency/memory.go that outlives its reservation.
use gogolook_task_api.Prelude.{ℕ, ◌+◌, ◌≤◌, ◌<◌, false, some, List, ◌≡◌, refl, ap, lt→ltb, arith}
use gogolook_task_api.Prelude.Bytes.{find_key, put_key}
use gogolook_task_api.Idempotency.Store.{
  Record, MemRecord, Keys, seen, completed, fresh_record, take_key, reserve_over, reserve,
  complete_over, complete,
}
use gogolook_task_api.Idempotency.Records.{is_live, reserve-free, find_put}

-- The store after a reservation.
abbrev pub reserved_at : (checked stored : ℕ) → List ℕ → List ℕ → ℕ → Keys → Keys
reserved_at checked stored key print ttl m = (reserve checked stored key print ttl m).1

reserved_at-free :
    (checked stored : ℕ) (key print : List ℕ) (ttl : ℕ) (m : Keys)
    → is_live checked (find_key key m) ≡ false
    → reserved_at checked stored key print ttl m
      ≡ put_key key (record { rec = fresh_record print; expires = stored + ttl }) m
unfolding reserve take_key
reserved_at-free checked stored key print ttl m free =
    ap (λ r. r.1) (reserve-free (find_key key m) checked stored key print ttl m free)

reserve-seen :
    (now end : ℕ) (key print : List ℕ) (ttl : ℕ) (m : Keys) (held : MemRecord)
    → find_key key m ≡ some held
    → now < held.expires
    → reserve now end key print ttl m ≡ (seen held.rec, m)
unfolding reserve reserve_over
reserve-seen now end key print ttl m held e live = rw (e, lt→ltb now held.expires live) refl

complete-found :
    (key : List ℕ) (status : ℕ) (content_type body : List ℕ) (m : Keys) (held : MemRecord)
    → find_key key m ≡ some held
    → (complete (record { key = key; done = false }) status content_type body m).1
      ≡ put_key key
          (record held {
            rec = record held.rec {
              state = completed;
              status_code = status;
              content_type = content_type;
              body = body;
            };
          })
          m
unfolding complete complete_over
complete-found key status content_type body m held e = rw e refl

is_live-lapsed :
    (now : ℕ) (key : List ℕ) (v : MemRecord) (m : Keys)
    → v.expires ≤ now
    → is_live now (find_key key (put_key key v m)) ≡ false
is_live-lapsed now key v m h = rw (find_put key key v m refl) (ground arith)

-- Where a reservation has run out and another request has reserved the key, the first one's
-- Complete stores its response under the second one's fingerprint: whoever asks for the key before
-- the second reservation ends is given a completed record with the second one's fingerprint and the
-- first one's response.
pub complete_stale :
    (checked stored later after last end : ℕ) (key first second other : List ℕ) (ttl : ℕ) (m : Keys)
    (status : ℕ) (content_type body : List ℕ)
    → is_live checked (find_key key m) ≡ false
    → stored + ttl ≤ later
    → last < after + ttl
    → reserve last end key other ttl
        (complete
          (record { key = key; done = false })
          status
          content_type
          body
          (reserved_at later after key second ttl (reserved_at checked stored key first ttl m))).1
      ≡ (
        seen (record {
          fingerprint = second;
          state = completed;
          status_code = status;
          content_type = content_type;
          body = body;
        }),
        (complete
            (record { key = key; done = false })
            status
            content_type
            body
            (reserved_at later after key second ttl
              (reserved_at checked stored key first ttl m))).1,
      )
complete_stale checked stored later after last end key first second other ttl m status content_type
      body free over soon =
    let one : MemRecord = record { rec = fresh_record first; expires = stored + ttl } in
    let two : MemRecord = record { rec = fresh_record second; expires = after + ttl } in
    let told : Record = record {
      fingerprint = second;
      state = completed;
      status_code = status;
      content_type = content_type;
      body = body;
    } in
    let held : MemRecord = record { rec = told; expires = after + ttl } in
    let taken =
      reserved_at-free later after key second ttl (put_key key one m)
        (is_live-lapsed later key one m over) in
    let written =
      complete-found key status content_type body (put_key key two (put_key key one m)) two
        (find_put key key two (put_key key one m) refl) in
    rw (reserved_at-free checked stored key first ttl m free, taken, written)
      (reserve-seen last end key other ttl (put_key key held (put_key key two (put_key key one m)))
        held (find_put key key held (put_key key two (put_key key one m)) refl) soon)

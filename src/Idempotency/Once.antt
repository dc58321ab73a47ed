-- ===== src/Idempotency/Once.antt =====
-- A request with a key, sent again: internal/idempotency/middleware.go over memory.go.
use gogolook_task_api.Prelude.{
  ℕ, ◌+◌, ◌<◌, Bool, true, false, not, Option, none, some, List, [], if◌then◌else◌, ◌≡◌, refl, ap,
  ◌∙◌, lt→ltb,
}
use gogolook_task_api.Prelude.Bytes.{bytes_eq, find_key, put_key, remove_key}
use gogolook_task_api.Idempotency.Store.{
  MemRecord, Keys, fresh_record, take_key, reserve_over, reserve, complete_over, complete, abandon,
}
use gogolook_task_api.Idempotency.Fingerprints.{Request, whole, fingerprint, check_key, safe_method}
use gogolook_task_api.Idempotency.Middleware.{
  Call, new_recorder, record_calls, Answer, flushed, replayed, problem, Handler, Config, is_stored,
  identity_request, replay, completed_answer, abandoned_answer, store_response, after_handler,
  execute, reserved_answer, handle_body, handle, keyed, middleware, memory_keys, lift_handler,
}
use gogolook_task_api.Idempotency.Records.{
  is_live, completed_record, not-true, check_key-nonempty, reserve-free, find_put, replay-completed,
  find_removed,
}

module _ {W : Type 0} (h : Handler W) (digest : List ℕ → List ℕ) (cfg : Config) where
  -- The middleware over the in-memory store.
  abbrev pub serve : (checked stored : ℕ) → Request → Keys × W → Answer × (Keys × W)
  serve = middleware (memory_keys W) (lift_handler h) digest cfg

  abbrev pub print_of : Request → List ℕ → List ℕ
  print_of r body = fingerprint digest r.method r.path body

  -- A write with a key that is accepted and a body that can be read.
  pub record IsKeyed (r : Request) (body : List ℕ) : Type 0 where
    pub enabled : cfg.enabled ≡ true
    pub unsafe : safe_method r.method ≡ false
    pub accepted : check_key r.key cfg.max_key_bytes ≡ none
    pub read : r.body ≡ whole body

  IsKeyed-nonempty : (r : Request) (body : List ℕ) → IsKeyed r body → bytes_eq r.key [] ≡ false
  IsKeyed-nonempty r body k = check_key-nonempty r.key cfg.max_key_bytes k.accepted

  serve-keyed :
      (checked stored : ℕ) (r : Request) (body : List ℕ) (m : Keys) (w : W)
      → IsKeyed r body
      → serve checked stored r (m, w)
        ≡ reserved_answer (memory_keys W) (lift_handler h) (print_of r body) r (
            let (a, m') = reserve checked stored r.key (print_of r body) cfg.ttl m in
            (some a, (m', w)))
  unfolding middleware keyed handle handle_body
  serve-keyed checked stored r body m w k =
      rw (k.enabled, k.unsafe, IsKeyed-nonempty r body k, k.accepted, k.read) refl

  -- A keyed write whose key is held does not reach the handler and changes nothing: it is refused
  -- as another request's key or as still in progress, or is answered from the record.
  pub serve-live :
      (checked stored : ℕ) (r : Request) (body : List ℕ) (m : Keys) (w : W) (held : MemRecord)
      → IsKeyed r body
      → find_key r.key m ≡ some held
      → checked < held.expires
      → serve checked stored r (m, w) ≡ (replay held.rec (print_of r body), (m, w))
  unfolding reserved_answer reserve reserve_over
  serve-live checked stored r body m w held k e live =
      serve-keyed checked stored r body m w k ∙ rw (e, lt→ltb checked held.expires live) refl

  -- Where nobody holds the key, the handler runs in a fresh reservation.
  serve-free :
      (checked stored : ℕ) (r : Request) (body : List ℕ) (m : Keys) (w : W)
      → IsKeyed r body
      → is_live checked (find_key r.key m) ≡ false
      → serve checked stored r (m, w)
        ≡ execute
            (memory_keys W)
            (lift_handler h)
            (record { key = r.key; done = false })
            r
            (
              put_key r.key
                  (record { rec = fresh_record (print_of r body); expires = stored + cfg.ttl })
                  m,
              w,
            )
  unfolding reserved_answer reserve take_key
  serve-free checked stored r body m w k free =
      serve-keyed checked stored r body m w k
      ∙ rw (reserve-free (find_key r.key m) checked stored r.key (print_of r body) cfg.ttl m free)
          refl

  execute-stored :
      (key : List ℕ) (r : Request) (m : Keys) (w : W) (held : MemRecord) (calls : List Call)
      → find_key key m ≡ some held
      → (h (identity_request r) w).0 ≡ some calls
      → is_stored (record_calls calls new_recorder).status ≡ true
      → execute (memory_keys W) (lift_handler h) (record { key = key; done = false }) r (m, w) ≡ (
        flushed (record_calls calls new_recorder),
        (
          put_key key
              (record {
                rec = completed_record held.rec.fingerprint (record_calls calls new_recorder);
                expires = held.expires;
              })
              m,
          (h (identity_request r) w).1,
        ),
      )
  unfolding execute after_handler store_response completed_answer complete complete_over abandon
  execute-stored key r m w held calls e f st = rw (f, st, e) refl

  -- A handler that panics, or whose response is not a success.
  abbrev pub fails : Option (List Call) → Bool
  fails none = true
  fails (some calls) = not (is_stored (record_calls calls new_recorder).status)

  execute-failed :
      (key : List ℕ) (r : Request) (m : Keys) (w : W) (o : Option (List Call))
      → (h (identity_request r) w).0 ≡ o
      → fails o ≡ true
      → (execute (memory_keys W) (lift_handler h) (record { key = key; done = false }) r (m, w)).1
        ≡ (remove_key key m, (h (identity_request r) w).1)
  unfolding execute after_handler store_response abandoned_answer abandon
  execute-failed key r m w none f bad = rw f refl
  execute-failed key r m w (some calls) f bad =
      rw (f, not-true (is_stored (record_calls calls new_recorder).status) bad) refl

  -- A keyed write whose key nobody holds and whose handler fails or panics leaves its key free, so
  -- that it can be sent again, and every other key as it was.
  pub serve-failed :
      (checked stored : ℕ) (r : Request) (body : List ℕ) (m : Keys) (w : W)
      → IsKeyed r body
      → is_live checked (find_key r.key m) ≡ false
      → fails (h (identity_request r) w).0 ≡ true
      → (j : List ℕ)
      → find_key j (serve checked stored r (m, w)).1.0
        ≡ (if bytes_eq r.key j then none else find_key j m)
  serve-failed checked stored r body m w k free bad j =
      rw
        (
          serve-free checked stored r body m w k free,
          execute-failed r.key r
              (put_key r.key
                (record { rec = fresh_record (print_of r body); expires = stored + cfg.ttl }) m)
              w (h (identity_request r) w).0 refl bad,
        )
        (find_removed r.key j
          (record { rec = fresh_record (print_of r body); expires = stored + cfg.ttl }) m)

  abbrev reserved_record : ℕ → List ℕ → MemRecord
  reserved_record stored print = record { rec = fresh_record print; expires = stored + cfg.ttl }

  abbrev stored_record : ℕ → List ℕ → List Call → MemRecord
  stored_record stored print calls = record {
    rec = completed_record print (record_calls calls new_recorder);
    expires = stored + cfg.ttl;
  }

  serve-first :
      (checked stored : ℕ) (r : Request) (body : List ℕ) (m : Keys) (w : W) (calls : List Call)
      → IsKeyed r body
      → is_live checked (find_key r.key m) ≡ false
      → (h (identity_request r) w).0 ≡ some calls
      → is_stored (record_calls calls new_recorder).status ≡ true
      → serve checked stored r (m, w) ≡ (
        flushed (record_calls calls new_recorder),
        (
          put_key r.key
              (stored_record stored (print_of r body) calls)
              (put_key r.key (reserved_record stored (print_of r body)) m),
          (h (identity_request r) w).1,
        ),
      )
  serve-first checked stored r body m w calls k free f st =
      serve-free checked stored r body m w k free
      ∙ execute-stored r.key r (put_key r.key (reserved_record stored (print_of r body)) m) w
          (reserved_record stored (print_of r body)) calls
          (find_put r.key r.key (reserved_record stored (print_of r body)) m refl) f st

  -- A keyed write whose key nobody holds and whose handler succeeds is executed once: the client
  -- gets the handler's response, and whoever sends a keyed write with the same key before the
  -- reservation ends, the same request or another, does not reach the handler and changes neither
  -- the world nor the keys. One with the same fingerprint is answered from the record of that
  -- response, one with another is refused.
  pub serve_once :
      (checked stored : ℕ) (r : Request) (body : List ℕ) (m : Keys) (w : W) (calls : List Call)
      → IsKeyed r body
      → is_live checked (find_key r.key m) ≡ false
      → (h (identity_request r) w).0 ≡ some calls
      → is_stored (record_calls calls new_recorder).status ≡ true
      → (later after : ℕ) (again : Request) (body_again : List ℕ) → IsKeyed again body_again
      → again.key ≡ r.key
      → later < stored + cfg.ttl
      → ((serve checked stored r (m, w)).0 ≡ flushed (record_calls calls new_recorder))
        × ((serve checked stored r (m, w)).1.1 ≡ (h (identity_request r) w).1)
        × (serve later after again (serve checked stored r (m, w)).1 ≡ (
          (if bytes_eq (print_of r body) (print_of again body_again)
              then replayed (completed_record (print_of r body) (record_calls calls new_recorder))
              else problem 422 "Idempotency-Key has already been used for a different request"),
          (serve checked stored r (m, w)).1,
        ))
  serve_once checked stored r body m w calls k free f st later after again body_again k2 same soon =
      rw (serve-first checked stored r body m w calls k free f st) (
        refl,
        refl,
        serve-live later after again body_again
              (put_key r.key (stored_record stored (print_of r body) calls)
                (put_key r.key (reserved_record stored (print_of r body)) m))
              (h (identity_request r) w).1 (stored_record stored (print_of r body) calls) k2
              (find_put r.key again.key (stored_record stored (print_of r body) calls)
                (put_key r.key (reserved_record stored (print_of r body)) m) same)
              soon
            ∙ ap
                (λ a. (
                  a,
                  (
                    put_key r.key (stored_record stored (print_of r body) calls)
                        (put_key r.key (reserved_record stored (print_of r body)) m),
                    (h (identity_request r) w).1,
                  ),
                ))
                (replay-completed (print_of r body) (print_of again body_again)
                  (record_calls calls new_recorder)),
      )

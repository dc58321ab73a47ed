-- ===== src/Idempotency/Middleware.antt =====
-- internal/idempotency/middleware.go and recorder.go, over a store of keys given by its operations.
-- The state S holds the store and what the handlers write: a unit's transaction spans both.
use gogolook_task_api.Prelude.{
  ℕ, String, Bool, true, false, not, ◌&&◌, ◌||◌, Option, none, some, List, [], ◌∷◌, ◌++◌, ltb, leb,
  if◌then◌else◌,
}
use gogolook_task_api.Prelude.Bytes.{bytes_eq}
use gogolook_task_api.Idempotency.Store.{
  Record, Reserved, reserved, seen, is_completed, Keys, MemUnit, reserve, complete, abandon,
}
use gogolook_task_api.Idempotency.Fingerprints.{
  Request, Body, whole, too_large, unreadable, fingerprint, check_key, safe_method,
}

-- `Store` and `Unit` of internal/idempotency/store.go; `none` is an error of Reserve, and false one
-- of Complete. The two clock readings of Reserve come first.
pub record KeyStore (U S : Type 0) : Type 0 where
  pub reserve : (checked stored : ℕ) → List ℕ → List ℕ → ℕ → S → Option (Reserved U) × S
  pub complete : U → ℕ → List ℕ → List ℕ → S → Bool × U × S
  pub abandon : U → S → U × S

-- What a handler calls on its ResponseWriter; of the headers, Content-Type.
pub data Call : Type 0 where
  sets_type : List ℕ → Call
  writes_header : ℕ → Call
  writes : List ℕ → Call

-- `recorder`.
pub record Recorder : Type 0 where
  pub content_type : List ℕ
  pub status : ℕ
  pub body : List ℕ
  pub wrote : Bool

abbrev pub new_recorder : Recorder
new_recorder = record { content_type = []; status = 200; body = []; wrote = false }

unfoldable pub record_call : Call → Recorder → Recorder
record_call (sets_type t) r = record r { content_type = t }
record_call (writes_header s) r = if r.wrote then r else record r { wrote = true; status = s }
record_call (writes b) r = record r { wrote = true; body = r.body ++ b }

unfoldable pub record_calls : List Call → Recorder → Recorder
unfolding record_call
record_calls [] r = r
record_calls (c ∷ cs) r = record_calls cs (record_call c r)

-- What the client gets: the handler's own calls, a recorded response, a stored one, a problem
-- document with its status and detail, or a panic that goes on up.
pub data Answer : Type 0 where
  direct : List Call → Answer
  flushed : Recorder → Answer
  replayed : Record → Answer
  problem : ℕ → String → Answer
  panicked : Answer

-- `none` is a panic of the handler.
abbrev pub Handler : Type 0 → Type 0
Handler S = Request → S → Option (List Call) × S

pub record Config : Type 0 where
  pub enabled : Bool
  pub is_required : Bool
  pub ttl : ℕ
  pub max_key_bytes : ℕ

-- `stored`: only success is remembered.
unfoldable pub is_stored : ℕ → Bool
is_stored status = leb 200 status && ltb status 300

-- `identityRequest`.
unfoldable pub identity_request : Request → Request
identity_request r = record r { accept_encoding = [] }

-- `replay`.
unfoldable pub replay : Record → List ℕ → Answer
replay r print =
    if not (bytes_eq r.fingerprint print)
    then problem 422 "Idempotency-Key has already been used for a different request"
    else if not (is_completed r)
    then problem 409 "a request with this Idempotency-Key is still in progress"
    else replayed r

abbrev pub answer_direct : {S : Type 0} → Option (List Call) × S → Answer × S
answer_direct (none, s) = (panicked, s)
answer_direct (some calls, s) = (direct calls, s)

module _ {U S : Type 0} (store : KeyStore U S) (handler : Handler S) where
  -- The end of `execute`, after the handler: the deferred Abandon is called last.
  unfoldable pub completed_answer : Recorder → Bool × U × S → Answer × S
  completed_answer rec (true, u, s) = (flushed rec, (store.abandon u s).1)
  completed_answer rec (false, u, s) = (
    problem 503 "the write could not be committed; retry with the same key",
    (store.abandon u s).1,
  )

  unfoldable pub abandoned_answer : Recorder → U × S → Answer × S
  abandoned_answer rec (u, s) = (flushed rec, (store.abandon u s).1)

  unfoldable pub store_response : U → Recorder → S → Answer × S
  unfolding completed_answer abandoned_answer is_stored
  store_response u rec s =
      if is_stored rec.status
      then completed_answer rec (store.complete u rec.status rec.content_type rec.body s)
      else abandoned_answer rec (store.abandon u s)

  unfoldable pub after_handler : U → Option (List Call) × S → Answer × S
  unfolding store_response record_calls
  after_handler u (none, s) = (panicked, (store.abandon u s).1)
  after_handler u (some calls, s) = store_response u (record_calls calls new_recorder) s

  -- `execute`.
  unfoldable pub execute : U → Request → S → Answer × S
  unfolding after_handler identity_request
  execute u r s = after_handler u (handler (identity_request r) s)

  unfoldable pub reserved_answer : List ℕ → Request → Option (Reserved U) × S → Answer × S
  unfolding execute replay
  reserved_answer print r (none, s) =
      (problem 503 "could not record the idempotency key; retry with the same key", s)
  reserved_answer print r (some (reserved u), s) = execute u r s
  reserved_answer print r (some (seen rec), s) = (replay rec print, s)

  module _ (digest : List ℕ → List ℕ) (cfg : Config) where
    unfoldable pub handle_body : (checked stored : ℕ) → Request → Body → S → Answer × S
    unfolding reserved_answer fingerprint
    handle_body checked stored r too_large s = (problem 413 "request body is too large", s)
    handle_body checked stored r unreadable s = (problem 400 "could not read the request body", s)
    handle_body checked stored r (whole body) s =
        reserved_answer (fingerprint digest r.method r.path body) r
          (store.reserve checked stored r.key (fingerprint digest r.method r.path body) cfg.ttl s)

    -- `handle`.
    unfoldable pub handle : (checked stored : ℕ) → Request → S → Answer × S
    unfolding handle_body
    handle checked stored r s = handle_body checked stored r r.body s

    unfoldable pub keyed : Option String → (checked stored : ℕ) → Request → S → Answer × S
    unfolding handle
    keyed (some detail) checked stored r s = (problem 400 detail, s)
    keyed none checked stored r s = handle checked stored r s

    -- `Middleware`. The method in the last detail is left out.
    unfoldable pub middleware : (checked stored : ℕ) → Request → S → Answer × S
    unfolding keyed check_key safe_method
    middleware checked stored r s =
        if not cfg.enabled || safe_method r.method
        then answer_direct (handler r s)
        else if not (bytes_eq r.key [])
        then keyed (check_key r.key cfg.max_key_bytes) checked stored r s
        else if cfg.is_required
        then (problem 400 "Idempotency-Key is required", s)
        else answer_direct (handler r s)

-- The in-memory store beside the world W of the handlers.
abbrev pub memory_keys : (W : Type 0) → KeyStore MemUnit (Keys × W)
memory_keys W = record {
  reserve = λ checked stored key print ttl s.
      let (r, m) = reserve checked stored key print ttl s.0 in (some r, (m, s.1));
  complete =
      λ u status type body s. let (u', m) = complete u status type body s.0 in (true, u', (m, s.1));
  abandon = λ u s. let (u', m) = abandon u s.0 in (u', (m, s.1));
}

-- A handler that writes to the world alone.
abbrev pub lift_handler : {W : Type 0} → Handler W → Handler (Keys × W)
lift_handler h r (m, w) = let (calls, w') = h r w in (calls, (m, w'))

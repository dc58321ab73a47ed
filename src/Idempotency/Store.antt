-- ===== src/Idempotency/Store.antt =====
-- internal/idempotency/store.go and memory.go. A key is its bytes; the mutex makes each operation
-- atomic. Instants and durations are nanoseconds; the two reads of the clock in Reserve are
-- arguments.
use gogolook_task_api.Prelude.{
  ℕ, ◌+◌, Bool, true, false, Option, none, some, List, [], ◌∷◌, ltb, if◌then◌else◌, suc,
}
use gogolook_task_api.Prelude.Bytes.{find_key, put_key, remove_key}

pub data Progress : Type 0 where
  in_progress completed : Progress

pub record Record : Type 0 where
  pub fingerprint : List ℕ
  pub state : Progress
  pub status_code : ℕ
  pub content_type : List ℕ
  pub body : List ℕ

-- `Record.Completed`.
unfoldable pub is_completed : Record → Bool
is_completed r = elim r.state [ in_progress ↦ false | completed ↦ true ]

-- `memRecord`, and the store's map.
pub record MemRecord : Type 0 where
  pub rec : Record
  pub expires : ℕ

abbrev pub Keys : Type 0
Keys = List (List ℕ × MemRecord)

-- `memUnit`: the key, and whether it was completed or abandoned.
pub record MemUnit : Type 0 where
  pub key : List ℕ
  pub done : Bool

-- What Reserve returns: a unit, or the record of whoever came first.
pub data Reserved (U : Type 0) : Type 0 where
  reserved : U → Reserved U
  seen : Record → Reserved U

abbrev pub fresh_record : List ℕ → Record
fresh_record fingerprint = record {
  fingerprint = fingerprint;
  state = in_progress;
  status_code = 0;
  content_type = [];
  body = [];
}

unfoldable pub take_key : ℕ → List ℕ → List ℕ → ℕ → Keys → Reserved MemUnit × Keys
take_key stored key fingerprint ttl m = (
  reserved (record { key = key; done = false }),
  put_key key (record { rec = fresh_record fingerprint; expires = stored + ttl }) m,
)

unfoldable pub reserve_over :
    Option MemRecord → (checked stored : ℕ) → List ℕ → List ℕ → ℕ → Keys → Reserved MemUnit × Keys
unfolding take_key
reserve_over none checked stored key fingerprint ttl m = take_key stored key fingerprint ttl m
reserve_over (some held) checked stored key fingerprint ttl m =
    if ltb checked held.expires then (seen held.rec, m) else take_key stored key fingerprint ttl m

-- `Reserve`.
unfoldable pub reserve : (checked stored : ℕ) → List ℕ → List ℕ → ℕ → Keys → Reserved MemUnit × Keys
unfolding reserve_over
reserve checked stored key fingerprint ttl m =
    reserve_over (find_key key m) checked stored key fingerprint ttl m

unfoldable pub complete_over : Option MemRecord → List ℕ → ℕ → List ℕ → List ℕ → Keys → Keys
complete_over none key status content_type body m = m
complete_over (some held) key status content_type body m =
    put_key key
      (record held {
        rec = record held.rec {
          state = completed;
          status_code = status;
          content_type = content_type;
          body = body;
        };
      })
      m

-- `Complete`, which never fails here.
unfoldable pub complete : MemUnit → ℕ → List ℕ → List ℕ → Keys → MemUnit × Keys
unfolding complete_over
complete u status content_type body m = if u.done then (u, m) else (
  record u { done = true },
  complete_over (find_key u.key m) u.key status content_type body m,
)

-- `Abandon`.
unfoldable pub abandon : MemUnit → Keys → MemUnit × Keys
abandon u m = if u.done then (u, m) else (record u { done = true }, remove_key u.key m)

-- `Purge`: drops the expired keys, and reports how many.
unfoldable pub purge : ℕ → Keys → Keys × ℕ
purge now [] = ([], 0)
purge now ((k, held) ∷ m) =
    let (rest, n) = purge now m in
    if ltb now held.expires then ((k, held) ∷ rest, n) else (rest, suc n)

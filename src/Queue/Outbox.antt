-- ===== src/Queue/Outbox.antt =====
-- Enqueue of internal/outbox/outbox.go: the insert of a job. What is not given takes the default of
-- migrations/0001_init.up.sql; the JSON text of the payload is an argument, none where it fails.
use gogolook_task_api.Prelude.{
  ℕ, String, str_eq, Bool, true, false, ◌&&◌, ◌||◌, Option, none, some, List, [], ◌∷◌, ◌==◌, count,
  ltb, if◌then◌else◌,
}
use gogolook_task_api.Prelude.Int.{ℤ, pos}
use gogolook_task_api.Prelude.Bytes.{bytes_eq}
use gogolook_task_api.Apperr.{plain, wrapped}
use gogolook_task_api.Apperr.Result.{Result, ok, err}
use gogolook_task_api.Queue.Job.{Row, State, available, scheduled, running, retryable, state_eq}
use gogolook_task_api.Queue.Store.{Table}

-- `outbox.Job`.
pub record OutboxJob : Type 0 where
  pub kind : String
  pub payload : Option (List ℕ)
  pub unique_key : List ℕ
  pub max_attempts : ℤ

-- The WHERE of the unique index on `unique_key`, at one key.
abbrev pub is_live : State → Bool
is_live s =
    state_eq s available || (state_eq s scheduled || (state_eq s running || state_eq s retryable))

abbrev pub key_is : Option (List ℕ) → List ℕ → Bool
key_is none k = false
key_is (some j) k = bytes_eq j k

unfoldable pub holds_key : List ℕ → Row → Bool
holds_key k r = is_live r.state && key_is r.unique_key k

-- NULLIF($3, '') and COALESCE(NULLIF($4, 0), 5).
abbrev pub key_or_null : List ℕ → Option (List ℕ)
key_or_null [] = none
key_or_null (c ∷ k) = some (c ∷ k)

abbrev pub attempts_or_default : ℕ → ℕ
attempts_or_default n = if n == 0 then 5 else n

unfoldable pub new_row : (now id : ℕ) → String → List ℕ → List ℕ → ℕ → Row
new_row now id kind payload key attempts = record {
  id = id;
  kind = kind;
  payload = payload;
  state = available;
  priority = 32768;
  attempt = 0;
  max_attempts = attempts_or_default attempts;
  scheduled_at = now;
  locked_by = none;
  locked_at = none;
  lease_expires_at = none;
  heartbeat_at = none;
  attempted_by = [];
  errors = [];
  unique_key = key_or_null key;
  finalized_at = none;
}

-- Whether a live job of the table holds the key: the empty key is null, which no job holds.
unfoldable pub is_taken : List ℕ → Table → Bool
unfolding holds_key
is_taken [] t = false
is_taken (c ∷ k) t = ltb 0 (count (holds_key (c ∷ k)) t)

-- The statement. A budget below 1 fails its CHECK; ON CONFLICT DO NOTHING returns no row.
unfoldable pub insert_job :
    (refused : Bool) (now id : ℕ) → String → List ℕ → List ℕ → ℤ → Table → Table × Result Bool
unfolding new_row is_taken
insert_job refused now id kind payload key (ℤ.negsuc n) t =
    (t, err (wrapped "outbox: enqueue" (plain "check constraint")))
insert_job refused now id kind payload key (pos n) t =
    if refused
    then (t, err (wrapped "outbox: enqueue" (plain "statement failed")))
    else if is_taken key t
    then (t, ok false)
    else (new_row now id kind payload key n ∷ t, ok true)

unfoldable pub enqueue_payload :
    (refused : Bool) (now id : ℕ) → OutboxJob → Option (List ℕ) → Table → Table × Result Bool
unfolding insert_job
enqueue_payload refused now id j none t =
    (t, err (wrapped "outbox: marshal payload" (plain "marshal")))
enqueue_payload refused now id j (some payload) t =
    insert_job refused now id j.kind payload j.unique_key j.max_attempts t

-- `Enqueue`: the table, and whether a row was written. `id` is the next value of the identity.
unfoldable pub enqueue : (refused : Bool) (now id : ℕ) → OutboxJob → Table → Table × Result Bool
unfolding enqueue_payload
enqueue refused now id j t =
    if str_eq j.kind ""
    then (t, err (plain "outbox: job kind is required"))
    else enqueue_payload refused now id j j.payload t

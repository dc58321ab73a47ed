-- ===== src/Queue/Store/Rows.antt =====
-- The completion writes, the heartbeat and the release of internal/queue/store.go. An operation
-- takes a duration in nanoseconds, and its statement the interval that the driver makes of it.
use gogolook_task_api.Prelude.{
  ℕ, ◌+◌, ◌-◌, String, str_eq, Bool, true, false, ◌&&◌, Option, none, some, List, [], ◌∷◌, ◌++◌,
  map, ◌==◌, ltb, count, length, take, if◌then◌else◌,
}
use gogolook_task_api.Prelude.Interval.{interval}
use gogolook_task_api.Queue.Job.{
  Row, Job, Failure, State, available, scheduled, running, retryable, succeeded, cancelled,
  discarded, state_eq,
}

abbrev pub Table : Type 0
Table = List Row

-- UPDATE jobs SET … WHERE …, and the rows affected.
abbrev pub update_where : (Row → Bool) → (Row → Row) → Table → Table
update_where p f t = map (λ r. if p r then f r else r) t

-- `column = $n`, which is not true of a null column.
abbrev pub is_worker : Option String → String → Bool
is_worker none w = false
is_worker (some v) w = str_eq v w

abbrev pub contains : List ℕ → ℕ → Bool
contains [] i = false
contains (j ∷ js) i = if j == i then true else contains js i

abbrev pub unlock : Row → Row
unlock r = record r { locked_by = none; locked_at = none; lease_expires_at = none }

-- WHERE id = ANY(ids) AND state = 'running' AND locked_by = worker.
unfoldable pub holds : String → List ℕ → Row → Bool
holds w ids r = contains ids r.id && (state_eq r.state running && is_worker r.locked_by w)

unfoldable pub heartbeat_row : ℕ → ℕ → Row → Row
heartbeat_row now lease r = record r {
  heartbeat_at = some now;
  lease_expires_at = some (now + lease);
}

-- `Heartbeat`: the new table, and how many of the jobs were still held. No ids, no statement.
unfoldable pub heartbeat : ℕ → String → List ℕ → ℕ → Table → Table × ℕ
heartbeat now w [] lease t = (t, 0)
heartbeat now w (i ∷ ids) lease t = (
  update_where (holds w (i ∷ ids)) (heartbeat_row now (interval lease)) t,
  count (holds w (i ∷ ids)) t,
)

-- WHERE id = $1 and the claim guard.
unfoldable pub guard : String → Job → Row → Bool
guard w j r =
    r.id == j.id
    && (state_eq r.state running && (is_worker r.locked_by w && r.attempt == j.attempt))

-- A statement behind the guard: it reports whether the claim still held.
unfoldable pub guarded : (Row → Row) → String → Job → Table → Table × Bool
guarded f w j t = (update_where (guard w j) f t, count (guard w j) t == 1)

unfoldable pub succeed_row : ℕ → Row → Row
succeed_row now r = record (unlock r) { state = succeeded; finalized_at = some now }

unfoldable pub succeed : ℕ → String → Job → Table → Table × Bool
succeed now w j t = guarded (succeed_row now) w j t

-- `errText`: at most 1024 bytes, and the three bytes of "…" after a cut. Nil is the empty text.
unfoldable pub err_text : Option (List ℕ) → List ℕ
err_text none = []
err_text (some s) = if ltb 1024 (length s) then take 1024 s ++ 0xe2 ∷ 0x80 ∷ 0xa6 ∷ [] else s

-- What is recorded of a failure: the worker is the statement's $2.
abbrev pub failure : ℕ → String → List ℕ → Row → Failure
failure now w text r = record { at = now; attempt = r.attempt; worker = some w; text = text }

unfoldable pub retry_row : ℕ → String → ℕ → List ℕ → Row → Row
retry_row now w delay text r = record (unlock r) {
  state = retryable;
  scheduled_at = now + delay;
  errors = r.errors ++ failure now w text r ∷ [];
}

-- `Retry`, with the text of the cause.
unfoldable pub retry : ℕ → String → Job → ℕ → Option (List ℕ) → Table → Table × Bool
retry now w j delay cause t = guarded (retry_row now w (interval delay) (err_text cause)) w j t

unfoldable pub terminal_row : ℕ → String → State → List ℕ → Row → Row
terminal_row now w s text r = record (unlock r) {
  state = s;
  finalized_at = some now;
  errors = r.errors ++ failure now w text r ∷ [];
}

unfoldable pub terminate : ℕ → String → Job → State → Option (List ℕ) → Table → Table × Bool
terminate now w j s cause t = guarded (terminal_row now w s (err_text cause)) w j t

unfoldable pub cancel : ℕ → String → Job → Option (List ℕ) → Table → Table × Bool
unfolding terminate
cancel now w j cause t = terminate now w j cancelled cause t

unfoldable pub discard : ℕ → String → Job → Option (List ℕ) → Table → Table × Bool
unfolding terminate
discard now w j cause t = terminate now w j discarded cause t

unfoldable pub snooze_row : ℕ → ℕ → Row → Row
snooze_row now delay r = record (unlock r) {
  state = scheduled;
  attempt = r.attempt - 1;
  scheduled_at = now + delay;
}

unfoldable pub snooze : ℕ → String → Job → ℕ → Table → Table × Bool
snooze now w j delay t = guarded (snooze_row now (interval delay)) w j t

unfoldable pub release_row : Row → Row
release_row r = record (unlock r) { state = available; attempt = r.attempt - 1 }

-- `Release`: hands jobs back, and reports how many.
unfoldable pub release : String → List ℕ → Table → Table × ℕ
release w [] t = (t, 0)
release w (i ∷ ids) t =
    (update_where (holds w (i ∷ ids)) release_row t, count (holds w (i ∷ ids)) t)

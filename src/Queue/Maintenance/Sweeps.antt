-- ===== src/Queue/Maintenance/Sweeps.antt =====
-- The statements of internal/queue/maintenance.go, and the two sweeps of internal/queue/service.go.
use gogolook_task_api.Prelude.{
  ℕ, zero, suc, ◌+◌, Bool, true, false, ◌&&◌, ◌||◌, Option, none, some, List, [], ◌∷◌, ◌++◌, min,
  leb, ltb, codes, count, if◌then◌else◌,
}
use gogolook_task_api.Prelude.Interval.{interval}
use gogolook_task_api.Queue.Job.{
  Row, State, available, scheduled, running, retryable, succeeded, cancelled, discarded, state_eq,
}
use gogolook_task_api.Queue.Store.{Table, update_where, unlock}

-- `timestamp < $n`, which is not true of a null timestamp.
abbrev pub is_past : Option ℕ → ℕ → Bool
is_past none now = false
is_past (some t) now = ltb t now

unfoldable pub lapsed : ℕ → Row → Bool
lapsed now r = state_eq r.state running && is_past r.lease_expires_at now

unfoldable pub lease_expired_text : List ℕ
unfolding codes
lease_expired_text = codes "lease expired: the worker holding this job stopped heartbeating"

unfoldable pub reap_row : ℕ → ℕ → ℕ → Row → Row
reap_row now delay ceiling r = record (unlock r) {
  state = if leb (min r.max_attempts ceiling) r.attempt then discarded else retryable;
  scheduled_at = now + delay;
  finalized_at = if leb r.max_attempts r.attempt then some now else none;
  errors =
      r.errors
      ++ record { at = now; attempt = r.attempt; worker = r.locked_by; text = lease_expired_text }
        ∷ [];
}

-- How many of the rows returned went to each state.
unfoldable pub lapsed_to : ℕ → ℕ → ℕ → State → Row → Bool
unfolding lapsed reap_row
lapsed_to now delay ceiling s r = lapsed now r && state_eq (reap_row now delay ceiling r).state s

-- `Reap`, with `backoff.For(1)` as `delay`: the table, and the counts (retryable, discarded).
unfoldable pub reap : ℕ → ℕ → ℕ → Table → Table × ℕ × ℕ
reap now delay ceiling t = (
  update_where (lapsed now) (reap_row now (interval delay) ceiling) t,
  count (lapsed_to now (interval delay) ceiling retryable) t,
  count (lapsed_to now (interval delay) ceiling discarded) t,
)

unfoldable pub due : ℕ → Row → Bool
due now r = (state_eq r.state retryable || state_eq r.state scheduled) && leb r.scheduled_at now

unfoldable pub schedule_row : Row → Row
schedule_row r = record r { state = available }

-- `Schedule`: makes due jobs claimable, and reports how many.
unfoldable pub schedule : ℕ → Table → Table × ℕ
schedule now t = (update_where (due now) schedule_row t, count (due now) t)

-- `finalized_at < now() - $n`, which is not true of a null timestamp.
abbrev pub is_older : Option ℕ → ℕ → ℕ → Bool
is_older none retention now = false
is_older (some t) retention now = ltb (t + retention) now

unfoldable pub purgeable : ℕ → ℕ → ℕ → Row → Bool
purgeable now kept_succeeded kept_discarded r =
    (state_eq r.state succeeded && is_older r.finalized_at kept_succeeded now)
    || ((state_eq r.state cancelled || state_eq r.state discarded)
        && is_older r.finalized_at kept_discarded now)

abbrev pub purge_batch : ℕ
purge_batch = 10000

-- DELETE … LIMIT: the first `n` rows of a test go; the statement names no order, and takes the
-- table's here.
unfoldable pub delete_first : ℕ → (Row → Bool) → Table → Table
delete_first n p [] = []
delete_first n p (r ∷ t) = elim (p r) [
  | false ↦ r ∷ delete_first n p t
  | true ↦ elim n [ zero ↦ r ∷ t | suc m ↦ delete_first m p t ]
]

-- `Purge`: deletes finalized jobs past their retention, and reports how many.
unfoldable pub purge : ℕ → ℕ → ℕ → Table → Table × ℕ
purge now kept_succeeded kept_discarded t = (
  delete_first purge_batch (purgeable now (interval kept_succeeded) (interval kept_discarded)) t,
  min purge_batch (count (purgeable now (interval kept_succeeded) (interval kept_discarded)) t),
)

-- `Maintenance.Sweep` where the statements succeed: on the leader, schedule and then reap.
unfoldable pub sweep : Bool → ℕ → ℕ → ℕ → Table → Table
unfolding schedule reap
sweep leader now delay ceiling t =
    if leader then (reap now delay ceiling (schedule now t).0).0 else t

-- ===== src/Queue/Store/Claiming.antt =====
-- `Claim` of internal/queue/store.go.
use gogolook_task_api.Prelude.{
  ℕ, ◌+◌, ◌-◌, String, Bool, not, ◌&&◌, some, List, [], ◌∷◌, ◌++◌, map, ◌==◌, ltb, leb, keep, take,
  if◌then◌else◌,
}
use gogolook_task_api.Prelude.Sort.{sort}
use gogolook_task_api.Prelude.Interval.{interval}
use gogolook_task_api.Queue.Job.{Row, Job, available, running, state_eq}
use gogolook_task_api.Queue.Store.Rows.{Table, update_where, contains}

-- The WHERE of the inner query. `locked` are the rows that other transactions have locked, which
-- SKIP LOCKED passes over.
unfoldable pub claimable : ℕ → List ℕ → Row → Bool
claimable now locked r =
    state_eq r.state available && (leb r.scheduled_at now && not (contains locked r.id))

-- ORDER BY priority, scheduled_at, id.
unfoldable pub claimed_before : Row → Row → Bool
claimed_before a b =
    if a.priority == b.priority
    then (if a.scheduled_at == b.scheduled_at
        then ltb a.id b.id
        else ltb a.scheduled_at b.scheduled_at)
    else ltb a.priority b.priority

-- The rows of the inner query.
unfoldable pub selected : ℕ → List ℕ → ℕ → Table → Table
unfolding claimable claimed_before sort
selected now locked batch t = take batch (sort claimed_before (keep (claimable now locked) t))

abbrev pub ids_of : Table → List ℕ
ids_of t = map (λ r. r.id) t

unfoldable pub claim_row : ℕ → String → ℕ → Row → Row
claim_row now w lease r = record r {
  state = running;
  attempt = r.attempt + 1;
  locked_by = some w;
  locked_at = some now;
  lease_expires_at = some (now + lease);
  heartbeat_at = some now;
  attempted_by = r.attempted_by ++ w ∷ [];
}

-- The columns of RETURNING, scanned; a negative wait counts as none.
unfoldable pub job_of : ℕ → Row → Job
job_of now r = record {
  id = r.id;
  kind = r.kind;
  payload = r.payload;
  attempt = r.attempt;
  max_attempts = r.max_attempts;
  waited = now - r.scheduled_at;
}

unfoldable pub claim_ids : ℕ → String → ℕ → List ℕ → Table → Table × List Job
claim_ids now w lease ids t =
    let t' = update_where (λ r. contains ids r.id) (claim_row now w lease) t in
    (t', map (job_of now) (keep (λ r. contains ids r.id) t'))

unfoldable pub claim : ℕ → String → ℕ → ℕ → List ℕ → Table → Table × List Job
unfolding selected claim_ids
claim now w batch lease locked t =
    claim_ids now w (interval lease) (ids_of (selected now locked batch t)) t

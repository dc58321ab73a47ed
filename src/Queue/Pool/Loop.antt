-- ===== src/Queue/Pool/Loop.antt =====
-- The inner loop of `claimLoop` of internal/queue/pool.go ends.
use gogolook_task_api.Prelude.{
  ℕ, zero, suc, ◌+◌, ◌≤◌, ◌<◌, String, Bool, true, false, ◌&&◌, Option, none, some, List, [], ◌∷◌,
  ◌≡◌, refl, ap, sym, subst, ◌⊎◌, ◌≢◌, Bool-cases, ◌||◌, inl, inr, arith, count, keep, take, length,
  if◌then◌else◌, ◌==◌, map,
}
use gogolook_task_api.Prelude.Interval.{interval}
use gogolook_task_api.Prelude.Sort.{sort, count-sort}
use gogolook_task_api.Queue.Job.{Row, Job, available, state_eq}
use gogolook_task_api.Queue.Store.{
  Table, claim, claim_ids, claim_row, claimable, claimed_before, selected, ids_of, update_where,
  contains, job_of,
}
use gogolook_task_api.Queue.Pool.Decide.{Config}
use gogolook_task_api.Queue.Pool.Inflight.{System, dispatch, claimed_batch, claim_batch}

-- What the environment decides in a round, and whether the cooldown after it goes by.
pub record Round : Type 0 where
  pub ended : Bool
  pub refused : Bool
  pub now : ℕ
  pub locked : List ℕ
  pub sent : ℕ
  pub waits : Bool

-- `for p.claimBatch(ctx, jobs)`, from round k on; `none` where the fuel is out.
unfoldable pub claim_rounds : Config → (ℕ → Round) → (k fuel : ℕ) → System → Option System
unfolding claim_batch
claim_rounds p env k zero s = none
claim_rounds p env k (suc fuel) s =
    let (more, s') =
      claim_batch p (env k).ended (env k).refused (env k).now (env k).locked (env k).sent s in
    let rest = claim_rounds p env (suc k) fuel s' in if more && (env k).waits then rest else some s'

abbrev pub is_available : Row → Bool
is_available r = state_eq r.state available

-- A claim takes the rows that it selects away from the available ones.
taken-available :
    (now : ℕ) (w : String) (lease : ℕ) (ids : List ℕ) (t : Table)
    → count is_available (claim_ids now w lease ids t).0
        + count (λ r. is_available r && contains ids r.id) t
      ≤ count is_available t
unfolding claim_ids claim_row
taken-available now w lease ids [] = omega arith
taken-available now w lease ids (r ∷ t) = ground (arith, taken-available now w lease ids t)

count-take_le : (p : Row → Bool) (n : ℕ) (t : Table) → count p (take n t) ≤ count p t
count-take_le p zero t = omega arith
count-take_le p (suc n) [] = omega arith
count-take_le p (suc n) (r ∷ t) = ground (arith, count-take_le p n t)

keep-claimable_counted :
    (now : ℕ) (locked ids : List ℕ) (t : Table)
    → count (λ r. contains ids r.id) (keep (claimable now locked) t)
      ≤ count (λ r. is_available r && contains ids r.id) t
unfolding claimable
keep-claimable_counted now locked ids [] = omega arith
keep-claimable_counted now locked ids (r ∷ t) =
    ground (arith, keep-claimable_counted now locked ids t)

head-counted : (r : Row) (t : Table) → 1 ≤ count (λ q. contains (ids_of (r ∷ t)) q.id) (r ∷ t)
head-counted r t = ground arith

selected-counted :
    (now : ℕ) (locked : List ℕ) (batch : ℕ) (t : Table) (r : Row) (rest : Table)
    → selected now locked batch t ≡ r ∷ rest
    → 1 ≤ count (λ q. is_available q && contains (ids_of (selected now locked batch t)) q.id) t
unfolding selected
selected-counted now locked batch t r rest some_row =
    let ids = ids_of (selected now locked batch t) in
    let ready = keep (claimable now locked) t in
    let head =
      subst (λ x. 1 ≤ count (λ q. contains (ids_of x) q.id) x) (sym some_row)
        (head-counted r rest) in
    omega (
      arith,
      head,
      count-take_le (λ q. contains ids q.id) batch (sort claimed_before ready),
      count-sort claimed_before (λ q. contains ids q.id) ready,
      keep-claimable_counted now locked ids t,
    )

keep-none : (t : Table) → keep (λ r. contains [] r.id) t ≡ []
keep-none [] = refl
keep-none (r ∷ t) = keep-none t

-- A claim that returns jobs leaves fewer rows available.
claimed-available :
    (now : ℕ) (w : String) (lease : ℕ) (locked : List ℕ) (batch : ℕ) (t picked : Table)
    → selected now locked batch t ≡ picked
    → ((claim now w batch lease locked t).1 ≡ [])
      ⊎ (count is_available (claim now w batch lease locked t).0 < count is_available t)
unfolding claim claim_ids
claimed-available now w lease locked batch t [] empty = inl (
    subst
      (λ ids.
        map (job_of now) (
          keep (λ r. contains (ids_of ids) r.id)
            (update_where (λ r. contains (ids_of ids) r.id) (claim_row now w (interval lease)) t))
        ≡ [])
      (sym empty)
      (ap (map (job_of now)) (
        keep-none
          (update_where (λ r. contains (ids_of []) r.id) (claim_row now w (interval lease)) t))))
claimed-available now w lease locked batch t (r ∷ rest) some_row = inr (
    omega (
      arith,
      taken-available now w (interval lease) (ids_of (selected now locked batch t)) t,
      selected-counted now locked batch t r rest some_row,
    ))

dispatch-table :
    (p : Config) (sent : ℕ) (js : List Job) (s : System)
    → (dispatch p sent js s).0 ≡ true
    → (dispatch p sent js s).1.table ≡ s.table
unfolding dispatch
dispatch-table p sent [] s all = refl
dispatch-table p zero (j ∷ js) s all = ground arith
dispatch-table p (suc sent) (j ∷ js) s all = dispatch-table p sent js _ all

batch-available :
    (p : Config) (sent : ℕ) (js : List Job) (s : System)
    → (claimed_batch p sent js s).0 ≡ true
    → (js ≢ []) × ((claimed_batch p sent js s).1.table ≡ s.table)
unfolding claimed_batch
batch-available p sent [] s more = absurd (ground arith)
batch-available p sent (j ∷ js) s more =
    (ground arith, dispatch-table p sent (j ∷ js) s (all_sent more))
  where
    all_sent :
        (if (dispatch p sent (j ∷ js) s).0 then length (j ∷ js) == p.claim_batch else false) ≡ true
        → (dispatch p sent (j ∷ js) s).0 ≡ true
    all_sent m = ground arith

-- A batch was claimed and sent, so fewer rows are available.
claimed_batch-available :
    (p : Config) (now : ℕ) (locked : List ℕ) (sent : ℕ) (s : System)
    → let (t', jobs) = claim now p.worker_id p.claim_batch p.lease locked s.table in
      (claimed_batch p sent jobs (record s { table = t' })).0 ≡ true
      → count is_available (claimed_batch p sent jobs (record s { table = t' })).1.table
        < count is_available s.table
claimed_batch-available p now locked sent s more =
    let (t', jobs) = claim now p.worker_id p.claim_batch p.lease locked s.table in
    let (some_jobs, same) = batch-available p sent jobs (record s { table = t' }) more in
    elim (claimed-available now p.worker_id p.lease locked p.claim_batch s.table
      (selected now locked p.claim_batch s.table) refl) [
        | inl none_claimed ↦ absurd (some_jobs none_claimed)
        | inr fewer ↦
            subst (λ t. count is_available t < count is_available s.table) (sym same) fewer
      ]

guard-passed :
    (stopped : Bool) (x y : Bool × System)
    → x.0 ≡ false
    → (if stopped then x else y).0 ≡ true
    → ((if stopped then x else y) ≡ y) × (y.0 ≡ true)
guard-passed true x y halts more = absurd (ground arith)
guard-passed false x y halts more = (refl, more)

-- A round after which there may be more leaves fewer rows available.
claim_batch-available :
    (p : Config) (ended refused : Bool) (now : ℕ) (locked : List ℕ) (sent : ℕ) (s : System)
    → (claim_batch p ended refused now locked sent s).0 ≡ true
    → count is_available (claim_batch p ended refused now locked sent s).1.table
      < count is_available s.table
unfolding claim_batch
claim_batch-available p ended refused now locked sent s more =
    let (t', jobs) = claim now p.worker_id p.claim_batch p.lease locked s.table in
    let (same, still_more) =
      guard-passed (ended || s.draining || refused) (false, s)
        (claimed_batch p sent jobs (record s { table = t' })) refl more in
    subst (λ x. count is_available x.1.table < count is_available s.table) (sym same)
      (claimed_batch-available p now locked sent s still_more)

-- The inner loop of `claimLoop` ends: from any state of the pool, and whatever clock, locks, errors
-- and interruptions each round meets, with nothing else changing the table meanwhile, a fuel above
-- the number of available rows gives a final state.
pub claim_rounds-ends :
    (p : Config) (env : ℕ → Round) (k fuel : ℕ) (s : System)
    → count is_available s.table < fuel
    → (s' : System) × claim_rounds p env k fuel s ≡ some s'
unfolding claim_rounds
claim_rounds-ends p env k zero s enough = absurd (omega arith)
claim_rounds-ends p env k (suc fuel) s enough =
    let e = env k in
    let round = claim_batch p e.ended e.refused e.now e.locked e.sent s in
    elim (Bool-cases (round.0 && e.waits)) [
      | inl on ↦
          let (s', ended) = claim_rounds-ends p env (suc k) fuel round.1 (
            omega (
              arith,
              claim_batch-available p e.ended e.refused e.now e.locked e.sent s (ground arith),
            )) in
          (s', ground arith)
      | inr off ↦ (round.1, ground arith)
    ]

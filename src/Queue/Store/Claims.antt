-- ===== src/Queue/Store/Claims.antt =====
-- What `Claim` of internal/queue/store.go takes, and that no other claim takes it too.
use gogolook_task_api.Prelude.{
  ℕ, String, true, none, some, List, [], ◌∷◌, ◌==◌, All, All-keep, All-take, All-both,
  All-keep_passes, if◌then◌else◌, ◌≡◌, ◌⊎◌, refl, inl, inr, Bool-cases, arith,
}
use gogolook_task_api.Prelude.Sort.{sort-All}
use gogolook_task_api.Prelude.Interval.{interval}
use gogolook_task_api.Queue.Job.{Row, Job}
use gogolook_task_api.Queue.Store.Rows.{Table, contains}
use gogolook_task_api.Queue.Store.Claiming.{
  claimable, claimed_before, selected, ids_of, claim_row, claim_ids, claim,
}
use gogolook_task_api.Queue.Store.Guard.{find, Distinct, Distinct-update, find-update}
use gogolook_task_api.Queue.Store.Held.{IsHeld, find-id}

pub claim_row-id :
    (now : ℕ) (w : String) (lease : ℕ) (r : Row) → (claim_row now w lease r).id ≡ r.id
unfolding claim_row
claim_row-id now w lease r = refl

pub claim-Distinct :
    (now : ℕ) (w : String) (batch lease : ℕ) (locked : List ℕ) (t : Table)
    → Distinct t
    → Distinct (claim now w batch lease locked t).0
unfolding claim claim_ids
claim-Distinct now w batch lease locked t d =
    Distinct-update _ _ t (claim_row-id now w (interval lease)) d

-- A row of a table with distinct ids is the one that its id finds.
abbrev pub IsRowOf : Table → Row → Type 0
IsRowOf t q = find q.id t ≡ some q

IsRowOf-cons :
    (r : Row) (t s : Table) → find r.id t ≡ none → All (IsRowOf t) s → All (IsRowOf (r ∷ t)) s
IsRowOf-cons r t [] h a = tt
IsRowOf-cons r t (q ∷ s) h a = (ground arith, IsRowOf-cons r t s h a.1)

pub Distinct-rows : (t : Table) → Distinct t → All (IsRowOf t) t
Distinct-rows [] d = tt
Distinct-rows (r ∷ t) d = (ground arith, IsRowOf-cons r t t d.0 (Distinct-rows t d.1))

contains-ids :
    (P : Row → Type 0) (i : ℕ) (s : Table)
    → All P s
    → contains (ids_of s) i ≡ true
    → (q : Row) × P q × (q.id ≡ i)
contains-ids P i [] a h = cc
contains-ids P i (q ∷ s) a h = elim (Bool-cases (q.id == i)) [
  | inl e ↦ (q, a.0, ground arith)
  | inr e ↦ contains-ids P i s a.1 (ground arith)
]

module _ (now : ℕ) (w : String) (batch lease : ℕ) (locked : List ℕ) (t : Table) where
  selected-IsRowOf : Distinct t → All (IsRowOf t) (selected now locked batch t)
  unfolding selected
  selected-IsRowOf d =
      All-take _ batch _
        (sort-All claimed_before _ _ (All-keep _ (claimable now locked) t (Distinct-rows t d)))

  selected-claimable : All (λ r. claimable now locked r ≡ true) (selected now locked batch t)
  unfolding selected
  selected-claimable =
      All-take _ batch _ (sort-All claimed_before _ _ (All-keep_passes (claimable now locked) t))

  pub taken-claimable :
      (i : ℕ) (r : Row)
      → Distinct t
      → find i t ≡ some r
      → contains (ids_of (selected now locked batch t)) i ≡ true
      → claimable now locked r ≡ true
  taken-claimable i r d e h =
      let (q, (row, ok), same) =
        contains-ids _ i (selected now locked batch t)
          (All-both _ _ (selected now locked batch t) (selected-IsRowOf d) selected-claimable) h in
      ground arith

  -- A row with the id of a taken one was claimable and is now leased to the worker for its next
  -- attempt; every other row is as it was.
  pub claim-find :
      (i : ℕ) (r : Row)
      → Distinct t
      → find i t ≡ some r
      → ((find i (claim now w batch lease locked t).0 ≡ some (claim_row now w (interval lease) r))
          × (claimable now locked r ≡ true))
        ⊎ (find i (claim now w batch lease locked t).0 ≡ some r)
  unfolding claim claim_ids
  claim-find i r d e = elim (Bool-cases (contains (ids_of (selected now locked batch t)) i)) [
    | inl h ↦ inl (ground (arith, moved, found_id), taken-claimable i r d e h)
    | inr h ↦ inr (ground (arith, moved, found_id))
  ]
    where
      found_id : r.id ≡ i
      found_id = find-id i t r e

      moved :
          find i (claim_ids now w (interval lease) (ids_of (selected now locked batch t)) t).0
          ≡ some (
              if contains (ids_of (selected now locked batch t)) r.id
              then claim_row now w (interval lease) r
              else r)
      moved = ground (
        arith,
        find-update (λ r. contains (ids_of (selected now locked batch t)) r.id)
            (claim_row now w (interval lease)) i t (claim_row-id now w (interval lease)),
      )

  -- A claim takes no job away: whoever holds a job before it, this worker included, holds it after.
  pub claim_keeps_held :
      (v : String) (j : Job)
      → Distinct t
      → IsHeld v j t
      → IsHeld v j (claim now w batch lease locked t).0
  unfolding claimable
  claim_keeps_held v j d (r, e, is_running, owner, same) =
      (r, ground (arith, claim-find j.id r d e), is_running, owner, same)

-- ===== src/Queue/Store/Batch.antt =====
-- The batch that `Claim` of internal/queue/store.go returns: who holds it, its size, its order.
use gogolook_task_api.Prelude.{
  ℕ, zero, suc, ◌+◌, ◌≤◌, String, Bool, true, false, Option, none, some, List, [], ◌∷◌, ◌==◌, count,
  keep, take, drop, length, length-take-le, length-keep, length-map, All, All-keep, All-both,
  All-keep_passes, All-of_map, All-weaken, take-append-drop, count-append, if◌then◌else◌, ◌≡◌, refl,
  ap, arith,
}
use gogolook_task_api.Prelude.Sort.{sort, count-sort, sort-IsSorted, IsSorted, IsOrder}
use gogolook_task_api.Prelude.Interval.{interval}
use gogolook_task_api.Queue.Job.{Row, running}
use gogolook_task_api.Queue.Store.Rows.{Table, update_where, contains}
use gogolook_task_api.Queue.Store.Claiming.{
  claimable, claimed_before, selected, ids_of, claim_row, job_of, claim_ids, claim,
}
use gogolook_task_api.Queue.Store.Guard.{find, Distinct, find-update}
use gogolook_task_api.Queue.Store.Held.{IsHeld}
use gogolook_task_api.Queue.Store.Claims.{IsRowOf, Distinct-rows, claim_row-id, claim-Distinct}

count-contains_cons :
    (i : ℕ) (ids : List ℕ) (t : Table)
    → count (λ r. contains (i ∷ ids) r.id) t
      ≤ count (λ r. r.id == i) t + count (λ r. contains ids r.id) t
count-contains_cons i ids [] = omega arith
count-contains_cons i ids (r ∷ t) = ground (arith, count-contains_cons i ids t)

count-id_none : (i : ℕ) (t : Table) → find i t ≡ none → count (λ r. r.id == i) t ≡ 0
count-id_none i [] h = refl
count-id_none i (r ∷ t) h = ground (arith, count-id_none i t)

count-id_le : (i : ℕ) (t : Table) → Distinct t → count (λ r. r.id == i) t ≤ 1
count-id_le i [] d = omega arith
count-id_le i (r ∷ t) d = ground (arith, count-id_le i t d.1, count-id_none i t)

pub count-contains_le :
    (ids : List ℕ) (t : Table) → Distinct t → count (λ r. contains ids r.id) t ≤ length ids
count-contains_le [] [] d = omega arith
count-contains_le [] (r ∷ t) d = count-contains_le [] t d.1
count-contains_le (i ∷ ids) t d =
    omega (arith, count-contains_cons i ids t, count-id_le i t d, count-contains_le ids t d)

module _ (now : ℕ) (w : String) (lease : ℕ) (ids : List ℕ) (t : Table) where
  row_held :
      (q : Row)
      → IsRowOf (claim_ids now w lease ids t).0 q × (contains ids q.id ≡ true)
      → IsHeld w (job_of now q) (claim_ids now w lease ids t).0
  unfolding claim_ids job_of claim_row
  row_held q (row, taken) = (q, row, ran (find q.id t) refl, owned (find q.id t) refl, refl)
    where
      moved :
          find q.id (update_where (λ r. contains ids r.id) (claim_row now w lease) t)
          ≡ elim (find q.id t) [
            | none ↦ none
            | some r ↦ some (if contains ids r.id then claim_row now w lease r else r)
          ]
      moved =
          find-update (λ r. contains ids r.id) (claim_row now w lease) q.id t
            (claim_row-id now w lease)

      ran : (o : Option Row) → find q.id t ≡ o → q.state ≡ running
      ran none e = ground (arith, moved)
      ran (some r) e = ground (arith, moved)

      owned : (o : Option Row) → find q.id t ≡ o → q.locked_by ≡ some w
      owned none e = ground (arith, moved)
      owned (some r) e = ground (arith, moved)

  jobs_held :
      Distinct (claim_ids now w lease ids t).0
      → All (λ j. IsHeld w j (claim_ids now w lease ids t).0) (claim_ids now w lease ids t).1
  unfolding claim_ids
  jobs_held d =
      let t' = update_where (λ r. contains ids r.id) (claim_row now w lease) t in
      let P = λ (q : Row). IsRowOf t' q in
      let C = λ (q : Row). contains ids q.id ≡ true in
      All-of_map _ (job_of now) (keep (λ r. contains ids r.id) t') (
        All-weaken (λ q. P q × C q) _ _ row_held
          (All-both P C _ (All-keep P (λ r. contains ids r.id) t' (Distinct-rows t' d))
            (All-keep_passes (λ r. contains ids r.id) t')))

  jobs_length :
      Distinct (claim_ids now w lease ids t).0 → length (claim_ids now w lease ids t).1 ≤ length ids
  unfolding claim_ids
  jobs_length d =
      let t' = update_where (λ r. contains ids r.id) (claim_row now w lease) t in
      omega (
        arith,
        length-map (job_of now) (keep (λ r. contains ids r.id) t'),
        length-keep (λ r. contains ids r.id) t',
        count-contains_le ids t' d,
      )

length-selected :
    (now : ℕ) (locked : List ℕ) (batch : ℕ) (t : Table)
    → length (selected now locked batch t) ≤ batch
unfolding selected
length-selected now locked batch t =
    length-take-le batch (sort claimed_before (keep (claimable now locked) t))

-- A claim returns at most a batch of jobs, and its worker holds every one of them, under the
-- attempt that it was returned with: a completion write that follows at once would land.
pub claim-IsHeld :
    (now : ℕ) (w : String) (batch lease : ℕ) (locked : List ℕ) (t : Table)
    → Distinct t
    → let (t', jobs) = claim now w batch lease locked t in
      (length jobs ≤ batch) × All (λ j. IsHeld w j t') jobs
unfolding claim
claim-IsHeld now w batch lease locked t d =
    let ids = ids_of (selected now locked batch t) in
    let d' = claim-Distinct now w batch lease locked t d in
    (
      omega (
        arith,
        jobs_length now w (interval lease) ids t d',
        length-map (λ (r : Row). r.id) (selected now locked batch t),
        length-selected now locked batch t,
      ),
      jobs_held now w (interval lease) ids t d',
    )

claimed_before-IsOrder : IsOrder claimed_before
unfolding claimed_before
claimed_before-IsOrder = record {
  asymmetric = λ x y h. ground arith;
  co_transitive = λ x y z h k. ground arith;
}

All-drop {ℓ} : (P : Row → Type ℓ) (n : ℕ) (t : Table) → All P t → All P (drop n t)
All-drop P zero t a = a
All-drop P (suc n) [] a = tt
All-drop P (suc n) (r ∷ t) a = All-drop P n t a.1

-- In a sorted list nothing after a cut comes before anything in front of it.
take-before-drop :
    (n : ℕ) (t : Table)
    → IsSorted claimed_before t
    → All (λ a. All (λ b. claimed_before b a ≡ false) (drop n t)) (take n t)
take-before-drop zero t s = tt
take-before-drop (suc n) [] s = tt
take-before-drop (suc n) (r ∷ t) s = (All-drop _ n t s.0, take-before-drop n t s.1)

-- The claimable rows that a claim's batch has no room for.
abbrev pub passed_over : ℕ → List ℕ → ℕ → Table → Table
passed_over now locked batch t = drop batch (sort claimed_before (keep (claimable now locked) t))

-- A claim's inner query parts the claimable rows into those selected and those passed over, each
-- as often as it stands in the table; and no row passed over comes before a selected one by
-- priority, due time and id.
pub selected_first :
    (now : ℕ) (locked : List ℕ) (batch : ℕ) (t : Table)
    → let s = selected now locked batch t in
      let rest = passed_over now locked batch t in
      ((p : Row → Bool) → count p s + count p rest ≡ count p (keep (claimable now locked) t))
      × All (λ a. All (λ b. claimed_before b a ≡ false) rest) s
unfolding selected
selected_first now locked batch t =
    let sorted = sort claimed_before (keep (claimable now locked) t) in
    (
      (λ p. omega (
        arith,
        count-append p (take batch sorted) (drop batch sorted),
        ap (count p) (take-append-drop batch sorted),
        count-sort claimed_before p (keep (claimable now locked) t),
      )),
      take-before-drop batch sorted
          (sort-IsSorted claimed_before claimed_before-IsOrder (keep (claimable now locked) t)),
    )

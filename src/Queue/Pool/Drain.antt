-- ===== src/Queue/Pool/Drain.antt =====
-- The drain of internal/queue/pool.go at its deadline: what is handed back, and the writes that
-- come too late.
use gogolook_task_api.Prelude.{
  ℕ, ◌-◌, String, true, false, none, some, List, [], ◌∷◌, ◌≡◌, refl, inl, inr, Bool-cases, arith,
}
use gogolook_task_api.Queue.Job.{Row, Job, available, running}
use gogolook_task_api.Queue.Store.{
  Table, Completion, complete, contains, holds, release, release_row,
}
use gogolook_task_api.Queue.Store.Guard.{
  find, Distinct, Distinct-update, find-update, is_worker_iff, state_eq_iff,
}
use gogolook_task_api.Queue.Store.Held.{IsHeld, find-id, complete_held_iff, complete_refused}
use gogolook_task_api.Queue.Pool.Decide.{Config}
use gogolook_task_api.Queue.Pool.Inflight.{System, tracked_ids, release_inflight}
use gogolook_task_api.Queue.Pool.Dispatch.{release_row-id}

module _ (w : String) (i : ℕ) (ids : List ℕ) (t : Table) where
  release-back :
      (j : Job) (r : Row)
      → contains (i ∷ ids) j.id ≡ true
      → find j.id t ≡ some r
      → r.state ≡ running
      → r.locked_by ≡ some w
      → find j.id (release w (i ∷ ids) t).0 ≡ some (release_row r)
  unfolding release holds
  release-back j r c e is_running owner = ground (
    arith,
    find-update (holds w (i ∷ ids)) release_row j.id t release_row-id,
    find-id j.id t r e,
    state_eq_iff r.state running,
    is_worker_iff r.locked_by w,
  )

  release-not_held :
      (j : Job) → contains (i ∷ ids) j.id ≡ true → ¬ IsHeld w j (release w (i ∷ ids) t).0
  unfolding release
  release-not_held j c (q, e, is_running, owner, same) = was (find j.id t) refl
    where
      was : (o : _) → find j.id t ≡ o → ⊥
      was none h = ground (arith, find-update (holds w (i ∷ ids)) release_row j.id t release_row-id)
      was (some r) h = elim (Bool-cases (holds w (i ∷ ids) r)) [
        | inl held ↦
            unfold release_row in
            ground (arith, find-update (holds w (i ∷ ids)) release_row j.id t release_row-id)
        | inr free ↦
            unfold holds in
            ground (
              arith,
              find-update (holds w (i ∷ ids)) release_row j.id t release_row-id,
              find-id j.id t r h,
              state_eq_iff r.state running,
              is_worker_iff r.locked_by w,
            )
      ]

  release-Distinct : Distinct t → Distinct (release w (i ∷ ids) t).0
  unfolding release
  release-Distinct d = Distinct-update _ _ t release_row-id d

not_held-refused :
    (now : ℕ) (w : String) (j : Job) (c : Completion) (t : Table)
    → Distinct t
    → ¬ IsHeld w j t
    → complete now w j c t ≡ (t, false)
not_held-refused now w j c t d h = elim (Bool-cases (complete now w j c t).1) [
  | inl held ↦ absurd (h ((complete_held_iff now w j c t d).0 held))
  | inr lost ↦ λ i. (complete_refused now w j c t d lost i, lost i)
]

-- At the drain's deadline a job in flight that the worker still runs is available again, with its
-- attempt given back; and whatever its handler writes afterwards reports a lost claim and changes
-- nothing.
pub release_inflight-refuses :
    (p : Config) (s : System) (j : Job) (r : Row) (now : ℕ) (c : Completion)
    → Distinct s.table
    → contains (tracked_ids s.inflight) j.id ≡ true
    → find j.id s.table ≡ some r
    → r.state ≡ running
    → r.locked_by ≡ some p.worker_id
    → let t' = (release_inflight p false s).table in
      (find j.id t'
        ≡ some (record r {
          state = available;
          attempt = r.attempt - 1;
          locked_by = none;
          locked_at = none;
          lease_expires_at = none;
        }))
      × (complete now p.worker_id j c t' ≡ (t', false))
unfolding release_inflight
release_inflight-refuses p s j r now c d tracked e is_running owner =
    by_ids (tracked_ids s.inflight) refl
  where
    Goal : Table → Type 0
    Goal t' =
        (find j.id t'
          ≡ some (record r {
            state = available;
            attempt = r.attempt - 1;
            locked_by = none;
            locked_at = none;
            lease_expires_at = none;
          }))
        × (complete now p.worker_id j c t' ≡ (t', false))

    by_ids : (ids : List ℕ) → tracked_ids s.inflight ≡ ids → Goal (release_inflight p false s).table
    by_ids [] h = ground arith
    by_ids (i ∷ ids) h =
        let listed = rw h at tracked in
        rw (h, release_inflight)
          (
            unfold release_row in
                release-back p.worker_id i ids s.table j r listed e is_running owner,
            not_held-refused now p.worker_id j c _ (release-Distinct p.worker_id i ids s.table d)
                (release-not_held p.worker_id i ids s.table j listed),
          )

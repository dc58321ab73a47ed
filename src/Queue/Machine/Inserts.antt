-- ===== src/Queue/Machine/Inserts.antt =====
-- What Enqueue of internal/outbox/outbox.go does to the jobs table.
use gogolook_task_api.Prelude.{
  ℕ, String, str_eq, Bool, true, false, Option, none, some, List, ◌∷◌, ◌≡◌, ◌⊎◌, ◌≤◌, refl, inl,
  inr, Bool-cases, arith,
}
use gogolook_task_api.Prelude.Int.{ℤ, pos}
use gogolook_task_api.Queue.Job.{Row, available}
use gogolook_task_api.Queue.Store.{Table}
use gogolook_task_api.Queue.Outbox.{
  OutboxJob, key_or_null, is_taken, new_row, insert_job, enqueue_payload, enqueue,
}

-- A row as it is inserted.
pub record IsNew (r : Row) : Type 0 where
  pub is_available : r.state ≡ available
  pub no_attempt : r.attempt ≡ 0
  pub budget : 1 ≤ r.max_attempts
  pub no_lock : r.locked_by ≡ none
  pub no_lease : r.lease_expires_at ≡ none
  pub unfinished : r.finalized_at ≡ none

-- The table is as it was, or has one row more, which is new and whose key nobody live held.
pub record Inserted (id : ℕ) (j : OutboxJob) (t u : Table) : Type 0 where
  pub row : Row
  pub has_id : row.id ≡ id
  pub has_key : row.unique_key ≡ key_or_null j.unique_key
  pub is_new : IsNew row
  pub free : is_taken j.unique_key t ≡ false
  pub added : u ≡ row ∷ t

new_row-IsNew :
    (now id : ℕ) (kind : String) (payload key : List ℕ) (n : ℕ)
    → IsNew (new_row now id kind payload key n)
unfolding new_row
new_row-IsNew now id kind payload key n = ground arith

insert_job-cases :
    (refused : Bool) (now id : ℕ) (j : OutboxJob) (payload : List ℕ) (n : ℤ) (t : Table)
    → ((insert_job refused now id j.kind payload j.unique_key n t).0 ≡ t)
      ⊎ Inserted id j t (insert_job refused now id j.kind payload j.unique_key n t).0
unfolding insert_job new_row
insert_job-cases refused now id j payload (ℤ.negsuc n) t = inl refl
insert_job-cases true now id j payload (pos n) t = inl refl
insert_job-cases false now id j payload (pos n) t = elim (Bool-cases (is_taken j.unique_key t)) [
  | inl taken ↦ inl (rw taken refl)
  | inr free ↦ inr (record {
    row = new_row now id j.kind payload j.unique_key n;
    has_id = refl;
    has_key = refl;
    is_new = new_row-IsNew now id j.kind payload j.unique_key n;
    free = free;
    added = rw free refl;
  })
]

payload-cases :
    (refused : Bool) (now id : ℕ) (j : OutboxJob) (p : Option (List ℕ)) (t : Table)
    → ((enqueue_payload refused now id j p t).0 ≡ t)
      ⊎ Inserted id j t (enqueue_payload refused now id j p t).0
unfolding enqueue_payload
payload-cases refused now id j none t = inl refl
payload-cases refused now id j (some payload) t =
    insert_job-cases refused now id j payload j.max_attempts t

pub enqueue-cases :
    (refused : Bool) (now id : ℕ) (j : OutboxJob) (t : Table)
    → ((enqueue refused now id j t).0 ≡ t) ⊎ Inserted id j t (enqueue refused now id j t).0
unfolding enqueue
enqueue-cases refused now id j t = elim (Bool-cases (str_eq j.kind "")) [
  | inl nameless ↦ inl (rw nameless refl)
  | inr named ↦ rw named (payload-cases refused now id j j.payload t)
]

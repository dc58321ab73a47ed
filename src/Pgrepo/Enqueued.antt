-- ===== src/Pgrepo/Enqueued.antt =====
-- An event that internal/task/pgrepo hands to the outbox is live afterwards, under its id.
use gogolook_task_api.Prelude.{
  ℕ, String, Bool, true, false, Option, none, some, List, ◌∷◌, ◌++◌, ◌≡◌, ap, sym, subst, str_eq,
  arith, Bool-cases, inl, inr,
}
use gogolook_task_api.Prelude.Int.{ℤ, pos}
use gogolook_task_api.Prelude.Bytes.{bytes_eq_self}
use gogolook_task_api.Task.{Result, ok}
use gogolook_task_api.Queue.Store.{Table}
use gogolook_task_api.Queue.Outbox.{
  OutboxJob, holds_key, new_row, is_taken, insert_job, enqueue_payload, enqueue,
}
use gogolook_task_api.Pgrepo.Events.{EventCodec, Event, event_id, event_job, itoa, separator}

-- A job that Enqueue took, inserted or deduped, is live under its key.
abbrev pub Takes : Bool → List ℕ → Table × Result Bool → Type 0
Takes refused key x = (b : Bool) → x.1 ≡ ok b → (refused ≡ false) × (is_taken key x.0 ≡ true)

insert_job-Takes :
    (refused : Bool) (now id : ℕ) (kind : String) (payload : List ℕ) (c : ℕ) (k : List ℕ) (n : ℤ)
    (t : Table)
    → Takes refused (c ∷ k) (insert_job refused now id kind payload (c ∷ k) n t)
unfolding insert_job is_taken new_row holds_key
insert_job-Takes refused now id kind payload c k (ℤ.negsuc n) t b e = ground arith
insert_job-Takes refused now id kind payload c k (pos n) t b e =
    ground (arith, bytes_eq_self (c ∷ k))

payload-Takes :
    (refused : Bool) (now id : ℕ) (j : OutboxJob) (p : Option (List ℕ)) (c : ℕ) (k : List ℕ)
    (t : Table)
    → j.unique_key ≡ c ∷ k
    → Takes refused (c ∷ k) (enqueue_payload refused now id j p t)
unfolding enqueue_payload
payload-Takes refused now id j none c k t h = λ b e. ground arith
payload-Takes refused now id j (some p) c k t h =
    rw h (insert_job-Takes refused now id j.kind p c k j.max_attempts t)

enqueue-Takes :
    (refused : Bool) (now id : ℕ) (j : OutboxJob) (c : ℕ) (k : List ℕ) (t : Table)
    → j.unique_key ≡ c ∷ k
    → Takes refused (c ∷ k) (enqueue refused now id j t)
unfolding enqueue
enqueue-Takes refused now id j c k t h = elim (Bool-cases (str_eq j.kind "")) [
  | inl nameless ↦ rw nameless (λ b e. ground arith)
  | inr named ↦ rw named (payload-Takes refused now id j j.payload c k t h)
]

pub event-Takes :
    (codec : EventCodec) (refused : Bool) (now id : ℕ) (e : Event) (t : Table) (c : ℕ) (n : List ℕ)
    → e.event ≡ c ∷ n
    → Takes refused (event_id codec e) (enqueue refused now id (event_job codec e) t)
unfolding event_id event_job
event-Takes codec refused now id e t c n named =
    let key : event_id codec e
        ≡ c ∷ (n ++ separator ∷ (codec.id_text e.task_id ++ separator ∷ itoa e.version)) =
      ap (λ d. d ++ separator ∷ (codec.id_text e.task_id ++ separator ∷ itoa e.version)) named in
    subst (λ k. Takes refused k (enqueue refused now id (event_job codec e) t)) (sym key)
      (enqueue-Takes refused now id (event_job codec e) c
        (n ++ separator ∷ (codec.id_text e.task_id ++ separator ∷ itoa e.version)) t key)

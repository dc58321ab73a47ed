-- ===== src/Idempotency/Records.antt =====
-- What the keys hold around a reservation: internal/idempotency/memory.go, and the replay of a
-- record.
use gogolook_task_api.Prelude.{
  ℕ, Bool, true, false, not, Option, none, some, List, [], ◌∷◌, ltb, if◌then◌else◌, ◌≡◌, refl, ap,
  ◌∙◌, arith, subst, sym,
}
use gogolook_task_api.Prelude.Bytes.{
  bytes_eq, bytes_eq_self, find_key, put_key, remove_key, find_key-put_key, find_key-remove_key,
}
use gogolook_task_api.Idempotency.Store.{
  Record, MemRecord, Keys, completed, is_completed, take_key, reserve_over,
}
use gogolook_task_api.Idempotency.Fingerprints.{check_key}
use gogolook_task_api.Idempotency.Middleware.{Recorder, replayed, problem, replay}

-- A key that is held at an instant.
abbrev pub is_live : ℕ → Option MemRecord → Bool
is_live now none = false
is_live now (some held) = ltb now held.expires

abbrev pub completed_record : List ℕ → Recorder → Record
completed_record print r = record {
  fingerprint = print;
  state = completed;
  status_code = r.status;
  content_type = r.content_type;
  body = r.body;
}

pub not-true : (b : Bool) → not b ≡ true → b ≡ false
not-true b h = ground arith

pub check_key-nonempty : (key : List ℕ) (n : ℕ) → check_key key n ≡ none → bytes_eq key [] ≡ false
unfolding check_key bytes_eq
check_key-nonempty [] n e = ground arith
check_key-nonempty (c ∷ s) n e = refl

pub reserve-free :
    (o : Option MemRecord) (checked stored : ℕ) (key print : List ℕ) (ttl : ℕ) (m : Keys)
    → is_live checked o ≡ false
    → reserve_over o checked stored key print ttl m ≡ take_key stored key print ttl m
unfolding reserve_over
reserve-free none checked stored key print ttl m f = refl
reserve-free (some held) checked stored key print ttl m f = rw f refl

pub find_put :
    (k j : List ℕ) (v : MemRecord) (m : Keys) → j ≡ k → find_key j (put_key k v m) ≡ some v
find_put k j v m e =
    find_key-put_key k j v m
    ∙ ap (λ b. if b then some v else find_key j m)
        (subst (λ i. bytes_eq k i ≡ true) (sym e) (bytes_eq_self k))

pub replay-completed :
    (print other : List ℕ) (rec : Recorder)
    → replay (completed_record print rec) other ≡ (
        if bytes_eq print other
        then replayed (completed_record print rec)
        else problem 422 "Idempotency-Key has already been used for a different request")
unfolding replay is_completed
replay-completed print other rec = ground arith

pub find_removed :
    (k j : List ℕ) (v : MemRecord) (m : Keys)
    → find_key j (remove_key k (put_key k v m)) ≡ (if bytes_eq k j then none else find_key j m)
find_removed k j v m =
    ground (arith, find_key-remove_key k j (put_key k v m), find_key-put_key k j v m)

-- ===== src/Durable/Outcome.antt =====
-- What becomes of a keyed request of internal/idempotency/middleware.go over the keys of
-- PostgreSQL.
use gogolook_task_api.Prelude.{
  ℕ, String, true, false, none, some, List, [], ◌∷◌, ◌++◌, ◌≡◌, refl, ap, ◌∙◌, sym, ◌⊎◌, arith,
  append_nil,
}
use mathlib.Core.List.{append_assoc}
use gogolook_task_api.Prelude.Bytes.{find_key, put_key, bytes_eq, bytes_eq_self, find_key-put_key}
use gogolook_task_api.Idempotency.{
  completed, Record, is_completed, Keys, MemRecord, fresh_record, complete_over, Request, Call,
  Recorder, new_recorder, record_calls, Answer, direct, flushed, replayed, problem, panicked,
  Handler, is_stored, identity_request,
}
use gogolook_task_api.Postgres.{Database, Work, Session, fresh_work, with_tx, notify, notify_all}
use gogolook_task_api.Durable.Store.{closed}

-- The handler works in the transaction that it finds: it commits nothing, leaves the transaction
-- open and the keys alone.
abbrev pub StaysInside : Handler Session → Type 0
StaysInside h =
    (r : Request) (s : Session) (w0 : Work)
    → s.ambient ≡ some w0
    → ((h r s).1.committed ≡ s.committed)
      × (w : Work) × ((h r s).1.ambient ≡ some w)
      × (w.db.keys ≡ w0.db.keys)

pub notify_all-rows :
    (ks : List String) (db : Database)
    → notify_all ks db ≡ record db { notified = db.notified ++ ks }
unfolding notify_all
notify_all-rows [] db = ap (λ n. record db { notified = n }) (sym (append_nil db.notified))
notify_all-rows (k ∷ ks) db =
    notify_all-rows ks (notify k db)
    ∙ ap (λ n. record db { notified = n }) (append_assoc db.notified (k ∷ []) ks)

put_key-put_key :
    (k : List ℕ) (u v : MemRecord) (m : Keys) → put_key k v (put_key k u m) ≡ put_key k v m
unfolding put_key
put_key-put_key k u v [] = rw (bytes_eq_self k) refl
put_key-put_key k u v ((j, x) ∷ m) = ground (arith, bytes_eq_self k, put_key-put_key k u v m)

-- The row of the key of a request whose response is recorded.
abbrev pub completed_row : List ℕ → ℕ → Recorder → MemRecord
completed_row print expires rec = record {
  rec = record {
    fingerprint = print;
    state = completed;
    status_code = rec.status;
    content_type = rec.content_type;
    body = rec.body;
  };
  expires = expires;
}

-- What Complete puts in the keys that the reservation has written.
pub complete_over-reserved :
    (key print : List ℕ) (expires : ℕ) (rec : Recorder) (m : Keys)
    → let reserved_keys = put_key key (record { rec = fresh_record print; expires = expires }) m in
      complete_over
        (find_key key reserved_keys)
        key
        rec.status
        rec.content_type
        rec.body
        reserved_keys
      ≡ put_key key (completed_row print expires rec) m
unfolding complete_over
complete_over-reserved key print expires rec m =
    rw
      (
        find_key-put_key key key (record { rec = fresh_record print; expires = expires }) m,
        bytes_eq_self key,
      )
      (put_key-put_key key (record { rec = fresh_record print; expires = expires })
        (completed_row print expires rec) m)

abbrev pub recorder_of : Answer → Recorder
recorder_of (flushed rec) = rec
recorder_of (direct calls) = new_recorder
recorder_of (replayed rec) = new_recorder
recorder_of (problem status detail) = new_recorder
recorder_of panicked = new_recorder

-- A response that is replayed is the one that the keys held, completed, under the key and the
-- fingerprint of the request.
pub record IsReplay (key print : List ℕ) (keys : Keys) (rec : Record) : Type 0 where
  pub held : MemRecord
  pub is_held : find_key key keys ≡ some held
  pub recorded : held.rec ≡ rec
  pub same_print : bytes_eq rec.fingerprint print ≡ true
  pub is_done : is_completed rec ≡ true

-- An answer that tells of no success but one that the keys held already.
abbrev pub IsNoSuccess : List ℕ → List ℕ → Keys → Answer → Type 0
IsNoSuccess key print keys (direct calls) = ⊥
IsNoSuccess key print keys (flushed rec) = is_stored rec.status ≡ false
IsNoSuccess key print keys (replayed rec) = IsReplay key print keys rec
IsNoSuccess key print keys (problem status detail) = is_stored status ≡ false
IsNoSuccess key print keys panicked = Unit

module _ (h : Handler Session) (key print : List ℕ) (expires : ℕ) (s0 : Session) where
  -- The transaction in which a reserved request runs, and the session with it.
  abbrev pub opened_work : Work
  opened_work = fresh_work (record s0.committed {
    keys = put_key key (record { rec = fresh_record print; expires = expires }) s0.committed.keys;
  })

  abbrev pub opened : Session
  opened = with_tx opened_work s0

  -- The handler has answered `calls` in the transaction w, whose rows are now committed with the
  -- completed key, and its notifications are sent.
  pub record IsCommitted (r : Request) (a : Answer) (s : Session) : Type 0 where
    pub calls : List Call
    pub work : Work
    pub inside : Session
    pub ran : h (identity_request r) opened ≡ (some calls, inside)
    pub at_end : inside.ambient ≡ some work
    pub answer : a ≡ flushed (record_calls calls new_recorder)
    pub success : is_stored (record_calls calls new_recorder).status ≡ true
    pub committed : s.committed ≡ record work.db {
      keys =
          put_key key
            (completed_row print expires (record_calls calls new_recorder))
            s0.committed.keys;
      notified = work.db.notified ++ work.after;
    }

  -- Nothing is left of the request and no new success is told, or it is committed.
  abbrev pub IsAllOrNothing : Request → Answer × Session → Type 0
  IsAllOrNothing r (a, s) =
      (s.ambient ≡ none)
      × (((s ≡ s0) × IsNoSuccess key print s0.committed.keys a) ⊎ IsCommitted r a s)

  pub closed_same : (s : Session) → s.committed ≡ s0.committed → s0.ambient ≡ none → closed s ≡ s0
  closed_same s same alone =
      ap (λ c. record { committed = c; ambient = none }) same
      ∙ ap (λ a. record { committed = s0.committed; ambient = a }) (sym alone)

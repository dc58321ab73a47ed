-- ===== src/Durable/Store.antt =====
-- internal/idempotency/postgres.go over sessions. A second transaction on a key waits for the
-- first, so a reservation reads what is committed. The two clocks of Reserve are the memory
-- store's: this one has the time of the transaction alone.
use gogolook_task_api.Prelude.{
  ℕ, suc, Bool, true, false, ◌||◌, Option, none, some, List, [], ◌∷◌, ◌+◌, if◌then◌else◌, ltb, not,
}
use gogolook_task_api.Prelude.Bytes.{find_key, put_key}
use gogolook_task_api.Prelude.Interval.{interval}
use gogolook_task_api.Idempotency.{
  Reserved, reserved, seen, Keys, MemRecord, fresh_record, complete_over, KeyStore,
}
use gogolook_task_api.Postgres.{
  Database, Work, Session, fresh_work, with_tx, run_after_commit, commit_work,
}

-- What may fail in a transaction: BEGIN, its first statement, its second one, COMMIT.
pub record KeyFaults : Type 0 where
  pub begin : Bool
  pub first : Bool
  pub second : Bool
  pub commit : Bool

-- `pgUnit`; its transaction is the ambient one of the session.
pub record PgUnit : Type 0 where
  pub key : List ℕ
  pub done : Bool

-- The session with no transaction: after a commit or a rollback.
abbrev pub closed : Session → Session
closed s = record s { ambient = none }

-- reserveSQL: the row inserted in a transaction that stays open, or the row that was there.
unfoldable pub reserve_row :
    Option MemRecord → (now : ℕ) → List ℕ → List ℕ → ℕ → Session → Reserved PgUnit × Session
unfolding put_key
reserve_row (some held) now key fingerprint ttl s = (seen held.rec, s)
reserve_row none now key fingerprint ttl s = (
  reserved (record { key = key; done = false }),
  with_tx
      (fresh_work (record s.committed {
        keys =
            put_key key (record { rec = fresh_record fingerprint; expires = now + interval ttl })
              s.committed.keys;
      }))
      s,
)

abbrev pub answered : Reserved PgUnit × Session → Option (Reserved PgUnit) × Session
answered (r, s) = (some r, s)

-- completeSQL.
unfoldable pub complete_row : List ℕ → ℕ → List ℕ → List ℕ → Work → Work
unfolding complete_over find_key
complete_row key status content_type body w = record w {
  db = record w.db {
    keys = complete_over (find_key key w.db.keys) key status content_type body w.db.keys;
  };
}

abbrev pub finished : PgUnit → PgUnit
finished u = record u { done = true }

-- The end of Complete: the hooks run after the commit, and only then.
unfoldable pub after_commit_of : PgUnit → Work → Option Database → Session → Bool × PgUnit × Session
unfolding run_after_commit
after_commit_of u w none s = (false, finished u, closed s)
after_commit_of u w (some db) s =
    (true, finished u, record { committed = run_after_commit w db; ambient = none })

-- Whether a period's deletion drops the row.
abbrev pub is_lapsed : ℕ → List ℕ × MemRecord → Bool
is_lapsed now (k, held) = ltb held.expires now

unfoldable pub purge_rows : ℕ → Keys → Keys × ℕ
purge_rows now [] = ([], 0)
purge_rows now (r ∷ m) =
    let (rest, n) = purge_rows now m in if is_lapsed now r then (rest, suc n) else (r ∷ rest, n)

module _ (faults : KeyFaults) where
  -- `Reserve`.
  unfoldable pub reserve_key :
      (now : ℕ) → List ℕ → List ℕ → ℕ → Session → Option (Reserved PgUnit) × Session
  unfolding reserve_row find_key
  reserve_key now key fingerprint ttl s =
      if faults.begin || faults.first
      then (none, s)
      else answered (reserve_row (find_key key s.committed.keys) now key fingerprint ttl s)

  -- A unit that is not done has its transaction.
  unfoldable pub complete_open :
      Option Work → PgUnit → ℕ → List ℕ → List ℕ → Session → Bool × PgUnit × Session
  unfolding complete_row after_commit_of
  complete_open none u status content_type body s = (false, finished u, s)
  complete_open (some w) u status content_type body s =
      if faults.second || w.is_aborted
      then (false, finished u, closed s)
      else after_commit_of u w
          (commit_work faults.commit (complete_row u.key status content_type body w)) s

  -- `Complete`.
  unfoldable pub complete_key : PgUnit → ℕ → List ℕ → List ℕ → Session → Bool × PgUnit × Session
  unfolding complete_open
  complete_key u status content_type body s =
      if u.done then (false, u, s) else complete_open s.ambient u status content_type body s

  -- `Purge` in `WithLeader`, whose query is the first statement: how many rows, none where it
  -- fails.
  unfoldable pub purge_keys : (is_leader : Bool) → ℕ → Session → Option ℕ × Session
  unfolding purge_rows
  purge_keys is_leader now s =
      if faults.begin || faults.first
      then (none, s)
      else if not is_leader
      then (some 0, s)
      else if faults.second || faults.commit
      then (none, s)
      else let (m, n) = purge_rows now s.committed.keys in
        (some n, record s { committed = record s.committed { keys = m } })

-- `Abandon`.
unfoldable pub abandon_key : PgUnit → Session → PgUnit × Session
abandon_key u s = if u.done then (u, s) else (finished u, closed s)

unfoldable pub durable_keys : KeyFaults → KeyStore PgUnit Session
unfolding reserve_key complete_key abandon_key
durable_keys faults = record {
  reserve = λ checked stored key print ttl s. reserve_key faults stored key print ttl s;
  complete = complete_key faults;
  abandon = abandon_key;
}

-- ===== src/Pgrepo/Statements.antt =====
-- The statements of internal/task/pgrepo/pgrepo.go inside a transaction, with the constraints of
-- migrations/0001_init.up.sql. A timestamptz keeps whole microseconds.
use gogolook_task_api.Prelude.{
  ℕ, ◌*◌, ◌/◌, ◌^◌, ◌-◌, Bool, true, false, not, ◌&&◌, ◌||◌, Option, none, some, length, leb,
  if◌then◌else◌, String,
}
use gogolook_task_api.Prelude.Int.{ℤ, pos, int_eq, inc64}
use gogolook_task_api.Apperr.{plain, wrapped}
use gogolook_task_api.Task.{
  Task, Result, ok, err, err_not_found, err_conflict, is_valid_status, load, put, remove,
}
use gogolook_task_api.Postgres.{Work}

abbrev pub micro : ℕ → ℕ
micro n = n / 1000 * 1000

-- The CHECKs of `tasks`.
unfoldable pub passes_checks : Task → Bool
unfolding is_valid_status
passes_checks t = leb 1 (length t.name) && (leb (length t.name) 255 && is_valid_status t.status)

-- A statement that fails aborts the transaction.
abbrev pub fail : String → Work → Result Task × Work
fail text w = (err (wrapped text (plain "statement failed")), record w { is_aborted = true })

abbrev pub with_row : Task → Work → Work
with_row t w = record w { db = record w.db { tasks = put t.id t w.db.tasks } }

abbrev pub is_held : Option Task → Bool
is_held none = false
is_held (some t) = true

abbrev pub stored_task : Task → Task
stored_task t = record t { created_at = micro t.created_at; updated_at = micro t.updated_at }

-- INSERT of `Create`: a taken id violates the primary key.
unfoldable pub insert_task : Bool → Task → Work → Result Task × Work
unfolding passes_checks
insert_task refused t w =
    if refused || w.is_aborted
    then fail "insert task" w
    else if not (passes_checks t) || is_held (load t.id w.db.tasks)
    then fail "insert task" w
    else (ok (stored_task t), with_row (stored_task t) w)

-- The row that an UPDATE writes; `version + 1` past the largest bigint is an error.
abbrev pub updated_task : Task → Task → Task
updated_task old t = record t {
  created_at = old.created_at;
  updated_at = micro t.updated_at;
  version = inc64 old.version;
}

abbrev pub is_last_version : ℤ → Bool
is_last_version v = int_eq v (pos (2 ^ 63 - 1))

abbrev pub matches_version : ℤ → Task → Bool
matches_version expected old = int_eq expected (pos 0) || int_eq old.version expected

-- `classifyMiss`.
abbrev pub classify_miss : Bool → Option Task → Work → Result Task × Work
classify_miss true o w = fail "classify update miss" w
classify_miss false none w = (err err_not_found, w)
classify_miss false (some t) w = (err err_conflict, w)

unfoldable pub update_found : Bool → Option Task → Task → ℤ → Work → Result Task × Work
unfolding passes_checks
update_found miss_refused none t expected w = classify_miss miss_refused none w
update_found miss_refused (some old) t expected w =
    if not (matches_version expected old)
    then classify_miss miss_refused (some old) w
    else if not (passes_checks t) || is_last_version old.version
    then fail "update task" w
    else (ok (updated_task old t), with_row (updated_task old t) w)

-- UPDATE of `Update`, and the query for what it missed.
unfoldable pub update_row : (refused miss_refused : Bool) → Task → ℤ → Work → Result Task × Work
unfolding update_found
update_row refused miss_refused t expected w =
    if refused || w.is_aborted
    then fail "update task" w
    else update_found miss_refused (load t.id w.db.tasks) t expected w

unfoldable pub delete_found : Option Task → ℕ → Work → Result Task × Work
delete_found none i w = (err err_not_found, w)
delete_found (some t) i w = (ok t, record w { db = record w.db { tasks = remove i w.db.tasks } })

-- DELETE of `Delete`, which returns the row.
unfoldable pub delete_row : Bool → ℕ → Work → Result Task × Work
unfolding delete_found
delete_row refused i w =
    if refused || w.is_aborted then fail "delete task" w else delete_found (load i w.db.tasks) i w

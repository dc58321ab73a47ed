-- ===== src/Task/Spec.antt =====
-- What `Repository` of internal/task/repository.go promises of its writes and reads: a map from ids
-- to tasks, without the order or the representation of any store.
use gogolook_task_api.Prelude.{ℕ, Bool, ◌||◌, Option, none, some, ◌==◌, if◌then◌else◌, ◌≡◌}
use gogolook_task_api.Prelude.Int.{ℤ, pos, int_eq, inc64}
use gogolook_task_api.Task.Model.{Task, Result, ok, err, err_not_found, err_conflict}
use gogolook_task_api.Task.Service.{Repository}

-- The answers, from what the map holds under the id.
abbrev pub created : Option Task → Task → Result Task
created none t = ok t
created (some old) t = err err_conflict

abbrev pub read : Option Task → Result Task
read none = err err_not_found
read (some t) = ok t

-- An update goes through if it asks for no version or for the one that is stored.
abbrev pub may_update : ℤ → Task → Bool
may_update expected old = int_eq expected (pos 0) || int_eq old.version expected

abbrev pub replaced : Option Task → Task → ℤ → Result Task
replaced none t expected = err err_not_found
replaced (some old) t expected =
    if may_update expected old
    then ok (record t { created_at = old.created_at; version = inc64 old.version })
    else err err_conflict

abbrev pub deleted : Option Task → Result (Unit {0})
deleted none = err err_not_found
deleted (some old) = ok tt

-- What the map holds under an id after a write that answers with `r`.
abbrev pub written : Result Task → Option Task → Option Task
written (ok t) old = some t
written (err e) old = old

-- A repository whose state stands for a map, with no error of the context. A write touches its own
-- id alone.
pub record Implements {S : Type 0} (repo : Repository S) (view : S → ℕ → Option Task) : Type 0 where
  pub get_law : (i : ℕ) (s : S) → repo.get none i s ≡ (read (view s i), s)
  pub create_answer : (t : Task) (s : S) → (repo.create none t s).0 ≡ created (view s t.id) t
  pub create_view :
      (t : Task) (s : S) (i : ℕ)
      → view (repo.create none t s).1 i
        ≡ (if t.id == i then written (created (view s t.id) t) (view s i) else view s i)
  pub update_answer :
      (t : Task) (v : ℤ) (s : S) → (repo.update none t v s).0 ≡ replaced (view s t.id) t v
  pub update_view :
      (t : Task) (v : ℤ) (s : S) (i : ℕ)
      → view (repo.update none t v s).1 i
        ≡ (if t.id == i then written (replaced (view s t.id) t v) (view s i) else view s i)
  pub delete_answer : (i : ℕ) (s : S) → (repo.delete none i s).0 ≡ deleted (view s i)
  pub delete_view :
      (i : ℕ) (s : S) (k : ℕ)
      → view (repo.delete none i s).1 k ≡ (if i == k then none else view s k)

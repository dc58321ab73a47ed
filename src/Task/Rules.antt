-- ===== src/Task/Rules.antt =====
-- What internal/task/service.go does over any repository that keeps its promises.
use gogolook_task_api.Prelude.{
  ℕ, Bool, true, false, ◌&&◌, Option, none, some, ◌==◌, if◌then◌else◌, ◌≡◌, refl, subst, sym, suc,
  zero, arith,
}
use gogolook_task_api.Prelude.Int.{ℤ, pos, int_eq, int_eq_iff, inc64}
use gogolook_task_api.Apperr.{wrapped}
use gogolook_task_api.Task.Model.{
  Task, Result, ok, err, validate_name, validate_status, err_conflict, err_not_found,
}
use gogolook_task_api.Task.Service.{
  Repository, CreateInput, UpdateInput, create_task, update_task, get_task, delete_task, check_id,
  check_version, wrap_result, wrap_call,
}
use gogolook_task_api.Task.Spec.{Implements, may_update, read}

abbrev pub is_ok {ℓ} : {A : Type ℓ} → Result A → Bool
is_ok (ok a) = true
is_ok (err e) = false

-- What an update writes, and a creation.
abbrev pub next_task : (now : ℕ) → UpdateInput → Task → Task
next_task now input old = record {
  id = input.id;
  name = input.name;
  status = input.status;
  created_at = old.created_at;
  updated_at = now;
  version = inc64 old.version;
}

abbrev pub new_task : (now new_id : ℕ) → CreateInput → Task
new_task now new_id input = record {
  id = new_id;
  name = input.name;
  status = input.status;
  created_at = now;
  updated_at = now;
  version = pos 1;
}

abbrev pub IsValidUpdate : UpdateInput → Type 0
IsValidUpdate input =
    ((input.id == 0) ≡ false)
    × (validate_name input.name ≡ ok tt)
    × (validate_status input.status ≡ ok tt)
    × (check_version input.expected_version ≡ ok tt)

-- A stored version is never the next one.
pub inc64-changes : (v : ℤ) → int_eq (inc64 v) v ≡ false
unfolding inc64
inc64-changes (pos n) = ground arith
inc64-changes (ℤ.negsuc zero) = ground arith
inc64-changes (ℤ.negsuc (suc n)) = ground arith

module _ {S : Type 0} (repo : Repository S) (view : S → ℕ → Option Task)
    (im : Implements repo view) where
  get_task-read :
      (i : ℕ) (s : S)
      → (i == 0) ≡ false
      → get_task repo none i s ≡ (wrap_result "get task" (read (view s i)), s)
  unfolding get_task check_id
  get_task-read i s z = rw (z, im.get_law i s) refl

  create_task-run :
      (now new_id : ℕ) (input : CreateInput) (s : S)
      → validate_name input.name ≡ ok tt
      → validate_status input.status ≡ ok tt
      → create_task repo none now new_id input s
        ≡ wrap_call "create task" (repo.create none (new_task now new_id input) s)
  unfolding create_task
  create_task-run now new_id input s n st = rw (n, st) refl

  -- What an update hands to the repository.
  abbrev update_draft : ℕ → UpdateInput → Task
  update_draft now input = record {
    id = input.id;
    name = input.name;
    status = input.status;
    created_at = 0;
    updated_at = now;
    version = pos 0;
  }

  update_task-run :
      (now : ℕ) (input : UpdateInput) (s : S)
      → IsValidUpdate input
      → update_task repo none now input s
        ≡ wrap_call "update task"
            (repo.update none (update_draft now input) input.expected_version s)
  unfolding update_task check_id
  update_task-run now input s (z, n, st, v) = rw (z, n, st, v) refl

  delete_task-run :
      (i : ℕ) (s : S)
      → (i == 0) ≡ false
      → delete_task repo none i s ≡ wrap_call "delete task" (repo.delete none i s)
  unfolding delete_task check_id
  delete_task-run i s z = rw z refl

  -- Over any repository that keeps its promises, in a context that has not ended: a creation with a
  -- valid name and status and an id that is not zero and not taken answers with the task as asked
  -- for, at version 1 and with both times the clock's, and a read of that id then answers with the
  -- same task.
  pub create_task-get_task :
      (now new_id : ℕ) (input : CreateInput) (s : S)
      → validate_name input.name ≡ ok tt
      → validate_status input.status ≡ ok tt
      → (new_id == 0) ≡ false
      → view s new_id ≡ none
      → ((create_task repo none now new_id input s).0 ≡ ok (new_task now new_id input))
        × ((get_task repo none new_id (create_task repo none now new_id input s).1).0
            ≡ ok (new_task now new_id input))
  unfolding wrap_result
  create_task-get_task now new_id input s n st z free =
      rw (create_task-run now new_id input s n st) (
        ground (
          arith,
          im.create_answer (new_task now new_id input) s,
          im.create_view (new_task now new_id input) s new_id,
          get_task-read new_id (repo.create none (new_task now new_id input) s).1 z,
          free,
        ))

  -- Over any repository that keeps its promises, in a context that has not ended: an update with
  -- valid input, of a task that is there, answers with the task that has the new name and status,
  -- the old creation time and the next version where it asks for version 0 or the stored one, and
  -- with a conflict otherwise; the map then holds the new task there, or is as it was; all other
  -- ids keep theirs.
  pub update_task-answers :
      (now : ℕ) (input : UpdateInput) (s : S) (old : Task)
      → IsValidUpdate input
      → view s input.id ≡ some old
      → ((update_task repo none now input s).0 ≡ (
          if may_update input.expected_version old
          then ok (next_task now input old)
          else err (wrapped "update task" err_conflict)))
        × ((i : ℕ)
            → view (update_task repo none now input s).1 i ≡ (
                if input.id == i && may_update input.expected_version old
                then some (next_task now input old)
                else view s i))
  unfolding wrap_result
  update_task-answers now input s old v e = rw (update_task-run now input s v) (
    ground (arith, im.update_answer (update_draft now input) input.expected_version s, e),
    λ i. ground (arith, im.update_view (update_draft now input) input.expected_version s i, e),
  )

  stale :
      (v : ℤ) (now : ℕ) (input : UpdateInput) (old : Task)
      → int_eq v (pos 0) ≡ false
      → may_update v old ≡ true
      → may_update v (next_task now input old) ≡ false
  stale v now input old z m =
      let same : old.version ≡ v = (int_eq_iff old.version v).0 (ground arith) in
      let moved : int_eq (inc64 old.version) v ≡ false =
        subst (λ w. int_eq (inc64 old.version) w ≡ false) same (inc64-changes old.version) in
      ground arith

  -- Over any repository that keeps its promises, in a context that has not ended: of two valid
  -- updates of a task that ask for the same version, which is not 0, the second is refused as a
  -- conflict once the first has gone through, and it leaves every task as it was.
  pub update_task-update_task :
      (first second : ℕ) (a b : UpdateInput) (s : S) (old : Task)
      → IsValidUpdate a
      → IsValidUpdate b
      → b.id ≡ a.id
      → b.expected_version ≡ a.expected_version
      → int_eq a.expected_version (pos 0) ≡ false
      → view s a.id ≡ some old
      → is_ok (update_task repo none first a s).0 ≡ true
      → ((update_task repo none second b (update_task repo none first a s).1).0
          ≡ err (wrapped "update task" err_conflict))
        × ((i : ℕ)
            → view (update_task repo none second b (update_task repo none first a s).1).1 i
              ≡ view (update_task repo none first a s).1 i)
  update_task-update_task first second a b s old va vb same_id same_version z e done =
      let one = update_task-answers first a s old va e in
      let went : may_update a.expected_version old ≡ true = ground (arith, one.0, done) in
      let seen : view (update_task repo none first a s).1 b.id ≡ some (next_task first a old) =
        subst (λ i. view (update_task repo none first a s).1 i ≡ some (next_task first a old))
          (sym same_id) (ground (arith, one.1 a.id, went)) in
      let two =
        update_task-answers second b (update_task repo none first a s).1 (next_task first a old) vb
          seen in
      let refused : may_update b.expected_version (next_task first a old) ≡ false =
        subst (λ v. may_update v (next_task first a old) ≡ false) (sym same_version)
          (stale a.expected_version first a old z went) in
      (ground (arith, two.0, refused), λ i. ground (arith, two.1 i, refused))

  -- Over any repository that keeps its promises, in a context that has not ended: after a deletion
  -- of an id that is not zero, whether it was there or not, a read and a second deletion of the id
  -- both answer that there is no such task.
  pub delete_task-gone :
      (i : ℕ) (s : S)
      → (i == 0) ≡ false
      → ((get_task repo none i (delete_task repo none i s).1).0
          ≡ err (wrapped "get task" err_not_found))
        × ((delete_task repo none i (delete_task repo none i s).1).0
            ≡ err (wrapped "delete task" err_not_found))
  unfolding wrap_result
  delete_task-gone i s z = rw (delete_task-run i s z) (
    ground (arith, im.delete_view i s i, get_task-read i (repo.delete none i s).1 z),
    rw (delete_task-run i (repo.delete none i s).1 z)
        (ground (arith, im.delete_view i s i, im.delete_answer i (repo.delete none i s).1)),
  )

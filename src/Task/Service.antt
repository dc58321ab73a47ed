-- ===== src/Task/Service.antt =====
-- internal/task/service.go over a repository: its operations are a parameter, which
-- internal/task/memrepo fills in. The clock and the id source are arguments of the calls.
use gogolook_task_api.Prelude.{ℕ, Option, List, String, ◌==◌, if◌then◌else◌}
use gogolook_task_api.Prelude.Int.{ℤ, pos, is_negative}
use gogolook_task_api.Apperr.{Err, field_error, wrapped}
use gogolook_task_api.Task.Model.{Task, Status, Result, ok, err, validate_name, validate_status}
use gogolook_task_api.Task.Paging.{ListQuery, Page}

-- The writes and reads of `Repository`, over a state.
pub record Repository (S : Type 0) : Type 0 where
  pub create : Option Err → Task → S → Result Task × S
  pub get : Option Err → ℕ → S → Result Task × S
  pub update : Option Err → Task → ℤ → S → Result Task × S
  pub delete : Option Err → ℕ → S → Result (Unit {0}) × S
  pub list : Option Err → ListQuery → S → Result (Option Page)

-- `fmt.Errorf("text: %w", err)` where a call failed; ids are left out of the text.
unfoldable pub wrap_result {ℓ} : {A : Type ℓ} → String → Result A → Result A
wrap_result s (ok a) = ok a
wrap_result s (err e) = err (wrapped s e)

abbrev pub wrap_call {ℓ} : {A : Type ℓ} {S : Type 0} → String → Result A × S → Result A × S
wrap_call s (r, st) = (wrap_result s r, st)

-- A guard in front of a call: its error is returned, and the state is as it was.
abbrev guarded {ℓ} : {A : Type ℓ} {S : Type 0} → Result (Unit {0}) → S → Result A × S → Result A × S
guarded (ok u) s k = k
guarded (err e) s k = (err e, s)

pub record CreateInput : Type 0 where
  pub name : List ℕ
  pub status : Status

pub record UpdateInput : Type 0 where
  pub id : ℕ
  pub name : List ℕ
  pub status : Status
  pub expected_version : ℤ

unfoldable pub check_id : ℕ → Result (Unit {0})
check_id i = if i == 0 then err (field_error "id" "must not be empty") else ok tt

unfoldable pub check_version : ℤ → Result (Unit {0})
check_version v =
    if is_negative v then err (field_error "version" "must not be negative") else ok tt

module _ {S : Type 0} (repo : Repository S) (ctx : Option Err) where
  unfoldable pub create_task : (now new_id : ℕ) → CreateInput → S → Result Task × S
  unfolding wrap_result
  create_task now new_id input s = guarded (validate_name input.name) s (
      guarded (validate_status input.status) s (
        wrap_call "create task" (
          repo.create ctx
            (record {
              id = new_id;
              name = input.name;
              status = input.status;
              created_at = now;
              updated_at = now;
              version = pos 1;
            })
            s)))

  unfoldable pub update_task : (now : ℕ) → UpdateInput → S → Result Task × S
  unfolding wrap_result check_id check_version
  update_task now input s = guarded (check_id input.id) s (
      guarded (validate_name input.name) s (
        guarded (validate_status input.status) s (
          guarded (check_version input.expected_version) s (
            wrap_call "update task" (
              repo.update ctx
                (record {
                  id = input.id;
                  name = input.name;
                  status = input.status;
                  created_at = 0;
                  updated_at = now;
                  version = pos 0;
                })
                input.expected_version s)))))

  unfoldable pub get_task : ℕ → S → Result Task × S
  unfolding wrap_result check_id
  get_task i s = guarded (check_id i) s (wrap_call "get task" (repo.get ctx i s))

  unfoldable pub delete_task : ℕ → S → Result (Unit {0}) × S
  unfolding wrap_result check_id
  delete_task i s = guarded (check_id i) s (wrap_call "delete task" (repo.delete ctx i s))

-- ===== src/Api/Updates.antt =====
-- UpdateTask of internal/api/server.go over a repository that keeps its promises.
use gogolook_task_api.Prelude.{
  ℕ, Option, none, some, if◌then◌else◌, ◌≡◌, refl, ap, ◌∙◌, ◌==◌, ◌&&◌, Bool-cases, inl, inr,
}
use gogolook_task_api.Apperr.{wrapped, message, kind_of, as_classified, new}
use gogolook_task_api.Task.{Task, ok, err_conflict, Repository, UpdateInput}
use gogolook_task_api.Task.Token.{Codec}
use gogolook_task_api.Task.Spec.{Implements, may_update}
use gogolook_task_api.Task.Rules.{IsValidUpdate, next_task, update_task-answers}
use gogolook_task_api.Api.Errors.{aborted, to_connect_error, code_by_kind}
use gogolook_task_api.Api.Server.{
  WireTask, UpdateRequest, replies, fails, to_proto, reply, update_parsed, parse_id, update,
}

abbrev pub input_of : ℕ → WireTask → UpdateInput
input_of i t = record { id = i; name = t.name; status = t.status; expected_version = t.version }

conflict-told :
    to_connect_error (wrapped "update task" err_conflict)
    ≡ (aborted, "the task was modified by someone else")
unfolding to_connect_error kind_of message as_classified err_conflict new code_by_kind
conflict-told = refl

module _ (codec : Codec) {S : Type 0} (repo : Repository S) (view : S → ℕ → Option Task)
    (im : Implements repo view) where
  parsed-answers :
      (now i : ℕ) (t : WireTask) (s : S) (old : Task)
      → IsValidUpdate (input_of i t)
      → view s i ≡ some old
      → let (answer, s') = update_parsed codec repo none now (ok i) (some t) s in
        (answer ≡ (
          if may_update t.version old
          then replies (to_proto codec (next_task now (input_of i t) old))
          else fails (aborted, "the task was modified by someone else")))
        × ((k : ℕ)
            → view s' k ≡ (
                if i == k && may_update t.version old
                then some (next_task now (input_of i t) old)
                else view s k))
  unfolding update_parsed
  parsed-answers now i t s old valid found =
      let (told, kept) = update_task-answers repo view im now (input_of i t) s old valid found in
      (
        ap (reply (to_proto codec)) told ∙ elim (Bool-cases (may_update t.version old)) [
          | inl may ↦ rw may refl
          | inr stale ↦ rw stale (ap fails conflict-told)
        ],
        kept,
      )

  -- Over a repository that keeps its promises, in a context that has not ended, an update with an
  -- id that can be read and valid fields, of a task that is there: where the message's version is 0
  -- or the stored one, the task is stored with the message's name and status, the time and the next
  -- version, and the answer is that task; otherwise the answer is the code Aborted and the text
  -- that the task was modified by someone else, and the task is left as it was. No other task is
  -- touched.
  pub update-answers :
      (now i : ℕ) (req : UpdateRequest) (t : WireTask) (s : S) (old : Task)
      → codec.parse_id req.id ≡ some i
      → req.task ≡ some t
      → IsValidUpdate (input_of i t)
      → view s i ≡ some old
      → let (answer, s') = update codec repo none now req s in
        (answer ≡ (
          if may_update t.version old
          then replies (to_proto codec (next_task now (input_of i t) old))
          else fails (aborted, "the task was modified by someone else")))
        × ((k : ℕ)
            → view s' k ≡ (
                if i == k && may_update t.version old
                then some (next_task now (input_of i t) old)
                else view s k))
  unfolding update parse_id
  update-answers now i req t s old read present valid found =
      rw (read, present) (parsed-answers now i t s old valid found)

-- ===== src/Api/Examples.antt =====
-- The theorems on the RPC handlers at two tasks in memory, and tests of the definitions.
use gogolook_task_api.Prelude.{
  ◌==◌, ◌&&◌, ℕ, Option, none, some, List, [], ◌∷◌, ◌≡◌, refl, if◌then◌else◌,
}
use gogolook_task_api.Prelude.Int.{pos}
use gogolook_task_api.Apperr.{plain, wrapped}
use gogolook_task_api.Apperr.Classify.{redact}
use gogolook_task_api.Task.{
  Task, Store, load, validate_name, validate_status, is_space, check_version,
}
use gogolook_task_api.Task.Token.{Codec}
use gogolook_task_api.Task.Refinement.{memory, memory-Implements}
use gogolook_task_api.Task.Spec.{may_update}
use gogolook_task_api.Task.Rules.{next_task}
use gogolook_task_api.Api.Errors.{aborted, to_connect_error}
use gogolook_task_api.Api.Server.{WireTask, UpdateRequest, replies, fails, to_proto, update}
use gogolook_task_api.Api.Told.{to_connect_error-redact}
use gogolook_task_api.Api.Updates.{input_of, update-answers}

abbrev one_text : ℕ → List ℕ
one_text n = n ∷ []

abbrev read_one : List ℕ → Option ℕ
read_one [] = none
read_one (n ∷ []) = some n
read_one (n ∷ k ∷ s) = none

abbrev codec : Codec
codec = record {
  encode_base64 = λ s. s;
  decode_base64 = λ s. some s;
  format_time = one_text;
  parse_time = read_one;
  id_text = one_text;
  parse_id = read_one;
}

abbrev stored : Task
stored = record {
  id = 9;
  name = 104 ∷ [];
  status = pos 0;
  created_at = 5;
  updated_at = 5;
  version = pos 4;
}

abbrev store : Store
store = (9, stored) ∷ []

abbrev sent : WireTask
sent = record {
  id = [];
  name = 105 ∷ [];
  status = pos 1;
  created_at = 0;
  updated_at = 0;
  version = pos 4;
}

abbrev request : UpdateRequest
request = record { id = 9 ∷ []; task = some sent }

abbrev held : Store → ℕ → Option Task
held m i = load i m

update-answers_example :
    let (answer, s') = update codec (memory (λ i. i)) none 50 request store in
    (answer ≡ (
      if may_update (pos 4) stored
      then replies (to_proto codec (next_task 50 (input_of 9 sent) stored))
      else fails (aborted, "the task was modified by someone else")))
    × ((k : ℕ)
        → held s' k ≡ (
            if 9 == k && may_update (pos 4) stored
            then some (next_task 50 (input_of 9 sent) stored)
            else held store k))
unfolding validate_name is_space validate_status check_version load
update-answers_example =
    update-answers codec (memory (λ i. i)) held (memory-Implements (λ i. i)) 50 9 request sent store
      stored refl refl (refl, refl, refl, refl) refl

to_connect_error-redact_example :
    to_connect_error (redact (wrapped "insert task" (plain "duplicate key")))
    ≡ to_connect_error (wrapped "insert task" (plain "duplicate key"))
to_connect_error-redact_example =
    to_connect_error-redact (wrapped "insert task" (plain "duplicate key"))

-- ===== src/Api/Errors.antt =====
-- internal/api/errors.go: the codes of Connect by the kinds of errors.
use gogolook_task_api.Prelude.{String, Option, none, some}
use gogolook_task_api.Apperr.{Err, Kind, kind_of, message}

-- `connect.Code`, of which the code uses these.
pub data Code : Type 0 where
  canceled invalid_argument deadline_exceeded not_found permission_denied : Code
  resource_exhausted aborted internal unavailable unauthenticated : Code

-- `codeByKind`.
unfoldable pub code_by_kind : Kind → Option Code
code_by_kind Kind.invalid = some invalid_argument
code_by_kind Kind.unauthenticated = some unauthenticated
code_by_kind Kind.forbidden = some permission_denied
code_by_kind Kind.not_found = some not_found
code_by_kind Kind.conflict = some aborted
code_by_kind Kind.unprocessable = some invalid_argument
code_by_kind Kind.exhausted = some resource_exhausted
code_by_kind Kind.unavailable = some unavailable
code_by_kind Kind.timeout = some deadline_exceeded
code_by_kind Kind.canceled = some canceled
code_by_kind Kind.internal = none
code_by_kind (Kind.undefined n) = none

abbrev pub code_or : Option Code → Code
code_or none = internal
code_or (some c) = c

-- `toConnectError`, of an error that is not nil: its code and its message.
unfoldable pub to_connect_error : Err → Code × String
unfolding code_by_kind message kind_of
to_connect_error e = (code_or (code_by_kind (kind_of (some e))), message (some e))

-- ===== src/Apperr/Kinds.antt =====
-- internal/apperr/kind.go. A Kind is a uint8; `undefined n` is the value 11 + n, past `Canceled`.
use Prim.Native.Nat.{ℕ, ◌+◌}
use Prim.Native.String.{String}
use mathlib.Core.Bool.{Bool, true, false}
use gogolook_task_api.Prelude.{◌==◌}

pub data Kind : Type 0 where
  internal invalid unauthenticated forbidden not_found conflict : Kind
  unprocessable exhausted unavailable timeout canceled : Kind
  undefined : ℕ → Kind

-- The uint8 behind the constant.
abbrev pub code : Kind → ℕ
code internal = 0
code invalid = 1
code unauthenticated = 2
code forbidden = 3
code not_found = 4
code conflict = 5
code unprocessable = 6
code exhausted = 7
code unavailable = 8
code timeout = 9
code canceled = 10
code (undefined n) = 11 + n

abbrev pub kind_eq : Kind → Kind → Bool
kind_eq a b = code a == code b

unfoldable pub normalize : Kind → Kind
normalize (undefined n) = internal
normalize k = k

-- `Kind.String`, by cases on a normalized kind.
name_of : Kind → String
name_of invalid = "invalid"
name_of unauthenticated = "unauthenticated"
name_of forbidden = "forbidden"
name_of not_found = "not_found"
name_of conflict = "conflict"
name_of unprocessable = "unprocessable"
name_of exhausted = "exhausted"
name_of unavailable = "unavailable"
name_of timeout = "timeout"
name_of canceled = "canceled"
name_of _ = "internal"

unfoldable pub string : Kind → String
unfolding normalize name_of
string k = name_of (normalize k)

message_of : Kind → String
message_of invalid = "invalid argument"
message_of unauthenticated = "unauthenticated"
message_of forbidden = "forbidden"
message_of not_found = "not found"
message_of conflict = "conflict"
message_of unprocessable = "unprocessable request"
message_of exhausted = "too many requests"
message_of unavailable = "temporarily unavailable"
message_of timeout = "timed out"
message_of canceled = "canceled"
message_of _ = "internal error"

-- What a client is told when the error carries no message of its own.
unfoldable pub kind_message : Kind → String
unfolding normalize message_of
kind_message k = message_of (normalize k)

is_retryable : Kind → Bool
is_retryable unavailable = true
is_retryable timeout = true
is_retryable internal = true
is_retryable canceled = true
is_retryable exhausted = true
is_retryable _ = false

unfoldable pub kind_retryable : Kind → Bool
unfolding normalize is_retryable
kind_retryable k = is_retryable (normalize k)

-- ===== src/Apperr/Error.antt =====
-- internal/apperr/error.go, over a tree of Go errors: what `errors.New`, `fmt.Errorf` with `%w`,
-- the standard library, this package and internal/queue build.
use Prim.Native.Nat.{ℕ}
use Prim.Native.String
use Prim.Native.String.{String}
use mathlib.Core.Bool.{Bool, true, false, ◌||◌}
use mathlib.Core.Option.{Option, none, some}
use gogolook_task_api.Prelude.{if◌then◌else◌, str_eq}
use gogolook_task_api.Apperr.Kinds.{
  Kind, internal, invalid, timeout, canceled, kind_eq, kind_message, kind_retryable,
}

-- The part of an `*apperr.Error` that is not its cause.
pub record Classified : Type 0 where
  pub kind : Kind
  pub field : String
  pub msg : String

pub data Err : Type 0 where
  -- an error that carries nothing but its text
  plain : String → Err
  -- `context.Canceled`, `context.DeadlineExceeded` and `queue.ErrTerminal`
  context_canceled deadline_exceeded terminal_sentinel : Err
  -- `*queue.SnoozeError`: For and Reason
  snooze_error : ℕ → String → Err
  -- `*apperr.Error`, without and with a cause
  app : Classified → Err
  app_cause : Classified → Err → Err
  -- `fmt.Errorf("text: %w", err)` and `fmt.Errorf("%w: %w", a, b)`
  wrapped : String → Err → Err
  joined : Err → Err → Err

-- The first of two results of `errors.As`.
abbrev pub or_else {ℓ} : {A : Type ℓ} → Option A → Option A → Option A
or_else none b = b
or_else (some a) b = some a

-- `errors.As` at `*apperr.Error`: the first one of the tree, depth first.
unfoldable pub as_classified : Err → Option Classified
as_classified (app c) = some c
as_classified (app_cause c e) = some c
as_classified (wrapped s e) = as_classified e
as_classified (joined a b) = or_else (as_classified a) (as_classified b)
as_classified (plain s) = none
as_classified context_canceled = none
as_classified deadline_exceeded = none
as_classified terminal_sentinel = none
as_classified (snooze_error d r) = none

-- `errors.Is` at a sentinel of another package, given by its test: `Error.Is` answers false there,
-- since `errors.As` finds no `*Error` in the target.
unfoldable pub is_sentinel : (Err → Bool) → Err → Bool
is_sentinel p (app c) = p (app c)
is_sentinel p (app_cause c e) = p (app_cause c e) || is_sentinel p e
is_sentinel p (wrapped s e) = p (wrapped s e) || is_sentinel p e
is_sentinel p (joined a b) = p (joined a b) || (is_sentinel p a || is_sentinel p b)
is_sentinel p (plain s) = p (plain s)
is_sentinel p context_canceled = p context_canceled
is_sentinel p deadline_exceeded = p deadline_exceeded
is_sentinel p terminal_sentinel = p terminal_sentinel
is_sentinel p (snooze_error d r) = p (snooze_error d r)

abbrev pub equals_canceled : Err → Bool
equals_canceled context_canceled = true
equals_canceled _ = false

abbrev pub equals_deadline : Err → Bool
equals_deadline deadline_exceeded = true
equals_deadline _ = false

-- `Error.Is`: one `*Error` of the chain against a target of kind `k`.
abbrev pub matches_kind : Kind → Err → Bool
matches_kind k (app c) = kind_eq k c.kind
matches_kind k (app_cause c e) = kind_eq k c.kind
matches_kind k _ = false

-- `errors.Is(err, t)` for a classified sentinel `t` of kind `k`, such as `task.ErrNotFound`. An
-- error that is `t` itself has kind `k`, so the test by identity adds nothing.
unfoldable pub errors_is_kind : Kind → Err → Bool
unfolding is_sentinel
errors_is_kind k e = is_sentinel (matches_kind k) e

unfoldable pub new : Kind → String → Err
new k msg = app (record { kind = k; field = ""; msg = msg })

unfoldable pub wrap : Kind → Err → String → Err
wrap k e msg = app_cause (record { kind = k; field = ""; msg = msg }) e

unfoldable pub field_error : String → String → Err
field_error name msg = app (record { kind = invalid; field = name; msg = msg })

-- The classification of an error that holds no `*Error`.
unfoldable pub standard_kind : Err → Kind
unfolding is_sentinel
standard_kind e =
    if is_sentinel equals_canceled e
    then canceled
    else if is_sentinel equals_deadline e
    then timeout
    else internal

kind_or : Option Classified → Kind → Kind
kind_or (some c) k = c.kind
kind_or none k = k

-- `KindOf`; a nil error is `none`.
unfoldable pub kind_of : Option Err → Kind
unfolding kind_or
kind_of none = internal
kind_of (some e) = kind_or (as_classified e) (standard_kind e)

-- `Is`: whether an error is classified as a kind.
unfoldable pub is_kind : Option Err → Kind → Bool
is_kind e k = kind_eq (kind_of e) k

field_or : Option Classified → String
field_or (some c) = c.field
field_or none = ""

unfoldable pub field_of : Option Err → String
unfolding field_or
field_of none = ""
field_of (some e) = field_or (as_classified e)

-- The message of a classified error, its kind's where it has none, behind its field.
client_text : Classified → String
client_text c =
    let msg = if str_eq c.msg "" then kind_message c.kind else c.msg in
    if str_eq c.field "" then msg else String.◌++◌ c.field (String.◌++◌ ": " msg)

text_or : Kind → Option Classified → String
unfolding client_text
text_or k none = kind_message k
text_or k (some c) = client_text c

abbrev pub as_classified_opt : Option Err → Option Classified
as_classified_opt none = none
as_classified_opt (some e) = as_classified e

-- `Message`: what a client may be told.
unfoldable pub message : Option Err → String
unfolding text_or
message e =
    if kind_eq (kind_of e) internal
    then kind_message internal
    else text_or (kind_of e) (as_classified_opt e)

unfoldable pub retryable : Option Err → Bool
retryable e = kind_retryable (kind_of e)
